-- ===== src/Sockets.antt =====
-- `link_lines` of experiments/mcp/native_socket_lifetimes.py: the descriptors that a debugger log shows
-- installed, and the ring entries that refer to them. The lines are parsed before. The dict of what
-- is pending is two dicts here, one for each kind of its keys.
pub mod Spans
pub mod Installs
pub mod Unclosed
use causpan.Prelude.{
  ℕ, ◌+◌, ℤ, pos, Option, none, some, List, [], ◌∷◌, ◌++◌, Dict, get, put, remove, Bool, true,
  false, ◌&&◌, ◌||◌, ◌==◌, nat_eq, pair_eq, int_eq, any, leb, leb_ℤ, if◌then◌else◌,
}

pub data Kind : Type 0 where
  socket eventfd epoll : Kind

pub record Installation : Type 0 where
  pub kind : Kind
  pub fd : ℤ
  pub syscall : ℕ
  pub entry_line : ℕ
  pub return_line : ℕ
  pub projection_rejected : Bool

pub record Reference : Type 0 where
  pub line : ℕ
  pub target_fd : ℕ
  pub installation : Option Installation

-- the locals of `link_lines`
pub record Links : Type 0 where
  pub installing : Dict (ℕ × ℕ) (ℤ × ℕ)
  pub closing : Dict ℕ (ℤ × ℕ)
  pub active : Dict ℤ Installation
  pub references : List Reference
  pub installations : List Installation
  pub last_close_start : Dict ℤ ℕ

-- SOCKET_STOP or CONTROL_FD_STOP, CLOSE_STOP, SQE with its target, and any other line
pub data Line : Type 0 where
  install_stop : Bool → ℕ → ℕ → ℤ → Line
  close_stop : ℕ → ℤ → Line
  entry : Option ℕ → Line
  unrelated : Line

unfoldable pub kind_of : ℕ → Option Kind
kind_of syscall =
    if syscall == 198 || syscall == 242
    then some Kind.socket
    else if syscall == 19
    then some Kind.eventfd
    else if syscall == 20
    then some Kind.epoll
    else none

-- `last_close_start.get(value, 0)`
unfoldable pub last_close : ℤ → Links → ℕ
last_close value s = elim (get value s.last_close_start) [ none ↦ 0 | some line ↦ line ]

-- a close of the same number overlaps with the installation that began at this line
unfoldable pub overlaps : ℤ → ℕ → Links → Bool
unfolding last_close
overlaps value start s = leb start (last_close value s) || any (λ item. item.1.0 == value) s.closing

-- a return with a number that is no error
unfoldable pub install : ℕ → ℕ → ℤ → ℕ → Links → Option Links
unfolding kind_of overlaps
install number syscall value start s = elim (kind_of syscall) [
  | none ↦ none
  | some kind ↦
      let rejected = overlaps value start s in
      let installation : Installation = record {
        kind = kind;
        fd = value;
        syscall = syscall;
        entry_line = start;
        return_line = number;
        projection_rejected = rejected;
      } in
      some (record s {
        active = if rejected then remove value s.active else put value installation s.active;
        installations = s.installations ++ installation ∷ [];
      })
]

unfoldable pub install_step : ℕ → ℕ → ℕ → ℤ → Links → Option Links
unfolding install
install_step number thread syscall value s = elim (get (thread, syscall) s.installing) [
  | none ↦ some (record s { installing = put (thread, syscall) (value, number) s.installing })
  | some begun ↦
      let popped = record s { installing = remove (thread, syscall) s.installing } in
      if leb_ℤ (pos 0) value then install number syscall value begun.1 popped else some popped
]

-- any close that starts ends the projection of its number, whether it succeeds or not
unfoldable pub close_step : ℕ → ℕ → ℤ → Links → Links
close_step number thread value s = elim (get thread s.closing) [
  | none ↦ record s {
    closing = put thread (value, number) s.closing;
    last_close_start = put value number s.last_close_start;
    active = remove value s.active;
  }
  | some _ ↦ record s { closing = remove thread s.closing }
]

unfoldable pub refer : ℕ → ℕ → Links → Links
refer number target s = record s {
  references =
      s.references
      ++ record { line = number; target_fd = target; installation = get (pos target) s.active }
        ∷ [];
}

-- one round of the loop; `none` is a ValueError
unfoldable pub link_line : Bool → ℕ → Line → Links → Option Links
unfolding install_step close_step refer
link_line include_controls number (Line.install_stop is_socket thread syscall value) s =
    if include_controls || is_socket then install_step number thread syscall value s else some s
link_line include_controls number (Line.close_stop thread value) s =
    some (close_step number thread value s)
link_line include_controls number (Line.entry none) s = none
link_line include_controls number (Line.entry (some target)) s = some (refer number target s)
link_line include_controls number Line.unrelated s = some s

unfoldable pub link_from : Bool → ℕ → List Line → Links → Option Links
unfolding link_line
link_from include_controls number [] s = some s
link_from include_controls number (line ∷ lines) s =
    elim (link_line include_controls number line s) [
      | none ↦ none
      | some next ↦ link_from include_controls (number + 1) lines next
    ]

abbrev pub no_links : Links
no_links = record {
  installing = [];
  closing = [];
  active = [];
  references = [];
  installations = [];
  last_close_start = [];
}

-- nothing is pending at the end
unfoldable pub is_settled : Links → Bool
is_settled s =
    elim s.installing [ [] ↦ true | _ ∷ _ ↦ false ] && elim s.closing [ [] ↦ true | _ ∷ _ ↦ false ]

-- `link_lines`
unfoldable pub link_lines : Bool → List Line → Option Links
unfolding link_from is_settled
link_lines include_controls lines = elim (link_from include_controls 1 lines no_links) [
  | none ↦ none
  | some s ↦ if is_settled s then some s else none
]
