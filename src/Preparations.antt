-- ===== src/Preparations.antt =====
-- `report` of experiments/mcp/native_preparation.py: the entry of a ring is the one that was prepared
-- before. The values of a line are read already; `marker_report` has accepted the run before.
pub mod Joined
use causpan.Prelude.{
  ℕ, ◌+◌, ◌≡◌, ◌↔◌, ℤ, int_eq, Option, none, some, List, [], ◌∷◌, ◌++◌, Dict, get, put, remove,
  Bool, true, false, ◌&&◌, ◌==◌, Eq, nat_eq, if◌then◌else◌, arith,
}

-- `key`: the ring and the user data
pub record Key : Type 0 where
  pub ring : Option ℤ
  pub user_data : ℤ

abbrev ring_beq : Option ℤ → Option ℤ → Bool
ring_beq none none = true
ring_beq none (some _) = false
ring_beq (some _) none = false
ring_beq (some a) (some b) = a == b

ring_beq_iff : (a b : Option ℤ) → (ring_beq a b ≡ true) ↔ (a ≡ b)
ring_beq_iff none none = ground arith
ring_beq_iff none (some b) = ground arith
ring_beq_iff (some a) none = ground arith
ring_beq_iff (some a) (some b) = ground (arith, int_eq.same_iff a b)

abbrev pub key_beq : Key → Key → Bool
key_beq j k = ring_beq j.ring k.ring && j.user_data == k.user_data

pub key_beq_iff : (j k : Key) → (key_beq j k ≡ true) ↔ (j ≡ k)
key_beq_iff j k =
    ground (arith, ring_beq_iff j.ring k.ring, int_eq.same_iff j.user_data k.user_data)

instance abbrev pub key_eq : Eq Key
key_eq = record { same = key_beq; same_iff = key_beq_iff }

-- the values that a preparation and an entry have in common
pub record Values : Type 0 where
  pub fd : ℤ
  pub target : ℤ
  pub control : ℤ

-- A marker has a flag for CONTEXT_KINDS.
pub data Line : Type 0 where
  marker : ℕ → Bool → ℕ → Line
  preparer : ℕ → Line
  prep : ℤ → ℤ → Values → Line
  batch : ℤ → Line
  sqe : ℤ → Values → Line
  other : Line

pub record Preparation : Type 0 where
  pub key : Key
  pub values : Values
  pub line : ℕ
  pub tid : Option ℕ
  pub context : Option ℕ

pub record Join : Type 0 where
  pub preparation : Preparation
  pub sqe_line : ℕ

pub record Preparing : Type 0 where
  pub pending : Dict Key Preparation
  pub contexts : Dict ℕ ℕ
  pub tid : Option ℕ
  pub ring : Option ℤ
  pub joined : List Join

abbrev pub same_values : Values → Values → Bool
same_values a b = a.fd == b.fd && (a.target == b.target && a.control == b.control)

unfoldable pub context_of : Option ℕ → Dict ℕ ℕ → Option ℕ
unfolding get
context_of none contexts = none
context_of (some tid) contexts = get tid contexts

-- `none` is the ValueError of a duplicate pending preparation
unfoldable pub prepare : ℕ → ℤ → ℤ → Values → Preparing → Option Preparing
unfolding get put context_of
prepare number ring_fd user_data values s =
    let key : Key = record { ring = some ring_fd; user_data = user_data } in
    elim (get key s.pending) [
      | some _ ↦ none
      | none ↦ some (record s {
        pending =
            put key
              (record {
                key = key;
                values = values;
                line = number;
                tid = s.tid;
                context = context_of s.tid s.contexts;
              })
              s.pending;
      })
    ]

-- `none` is the ValueError of a missing preparation, or of one that differs
unfoldable pub enter : ℕ → ℤ → Values → Preparing → Option Preparing
unfolding get remove
enter number user_data values s =
    let key : Key = record { ring = s.ring; user_data = user_data } in
    elim (get key s.pending) [
      | none ↦ none
      | some p ↦
          if same_values p.values values
          then some (record s {
            pending = remove key s.pending;
            joined = s.joined ++ record { preparation = p; sqe_line = number } ∷ [];
          })
          else none
    ]

unfoldable pub read_line : ℕ → Line → Preparing → Option Preparing
unfolding prepare enter put
read_line number (Line.marker tid is_context request) s =
    some (if is_context then record s { contexts = put tid request s.contexts } else s)
read_line number (Line.preparer tid) s = some (record s { tid = some tid })
read_line number (Line.prep ring_fd user_data values) s = prepare number ring_fd user_data values s
read_line number (Line.batch fd) s = some (record s { ring = some fd })
read_line number (Line.sqe user_data values) s = enter number user_data values s
read_line number Line.other s = some s

unfoldable pub read_lines : ℕ → List Line → Preparing → Option Preparing
unfolding read_line
read_lines number [] s = some s
read_lines number (line ∷ lines) s = elim (read_line number line s) [
  | none ↦ none
  | some t ↦ read_lines (number + 1) lines t
]

abbrev pub nothing_prepared : Preparing
nothing_prepared = record { pending = []; contexts = []; tid = none; ring = none; joined = [] }

-- the joins; `none` where preparations are left
unfoldable pub report : List Line → Option (List Join)
unfolding read_lines
report lines = elim (read_lines 1 lines nothing_prepared) [
  | none ↦ none
  | some s ↦ elim s.pending [ [] ↦ some s.joined | _ ∷ _ ↦ none ]
]
