-- ===== src/Attribution/RpcIds.antt =====
-- Equality of the request ids of analyze.py and attribute.py, an integer or a text.
use causpan.Prelude.{
  ◌≡◌, ap, ◌↔◌, String, string_eq, string_eq_iff, ℤ, int_eq, Bool, true, false, ◌==◌, Eq,
}
use causpan.Attribution.Types.{RpcId}

abbrev pub rpc_beq : RpcId → RpcId → Bool
rpc_beq (RpcId.number a) (RpcId.number b) = a == b
rpc_beq (RpcId.text a) (RpcId.text b) = a == b
rpc_beq (RpcId.number _) (RpcId.text _) = false
rpc_beq (RpcId.text _) (RpcId.number _) = false

number_injective : {a b : ℤ} → RpcId.number a ≡ RpcId.number b → a ≡ b
number_injective p = cc

text_injective : {a b : String} → RpcId.text a ≡ RpcId.text b → a ≡ b
text_injective p = cc

pub rpc_beq_iff : (a b : RpcId) → (rpc_beq a b ≡ true) ↔ (a ≡ b)
rpc_beq_iff (RpcId.number a) (RpcId.number b) = (
  λ h. ap RpcId.number ((int_eq.same_iff a b).0 h),
  λ p. (int_eq.same_iff a b).1 (number_injective p),
)
rpc_beq_iff (RpcId.text a) (RpcId.text b) =
    (λ h. ap RpcId.text ((string_eq_iff a b).0 h), λ p. (string_eq_iff a b).1 (text_injective p))
rpc_beq_iff (RpcId.number a) (RpcId.text b) = (λ h. absurd cc, λ h. absurd cc)
rpc_beq_iff (RpcId.text a) (RpcId.number b) = (λ h. absurd cc, λ h. absurd cc)

instance abbrev pub rpc_eq : Eq RpcId
rpc_eq = record { same = rpc_beq; same_iff = rpc_beq_iff }
