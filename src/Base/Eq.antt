-- ===== src/Base/Eq.antt =====
-- Keys that the code compares by `===`.
use Prim.Native.String.{String}
use mathlib.Core.Path.{◌≡◌}
use mathlib.Core.Logic.{◌↔◌}
use mathlib.Core.Bool.{Bool, true, ◌&&◌}
use native.Mathlib.Omega.{arith}
use text.Mathlib.TextEquality.{eq_iff}
use ai_crm_step.Base.Tests.{◌===◌}

pub record Key {ℓ} (K : Type ℓ) : Type ℓ where
  pub same : K → K → Bool
  pub same_iff : (a b : K) → (same a b ≡ true) ↔ (a ≡ b)

instance abbrev pub string_key : Key String
string_key = record { same = ◌===◌; same_iff = eq_iff }

unfoldable pub pair_same : String × String → String × String → Bool
pair_same (a, b) (c, d) = (a === c) && (b === d)

pub pair_same_iff : (p q : String × String) → (pair_same p q ≡ true) ↔ (p ≡ q)
unfolding pair_same
pair_same_iff (a, b) (c, d) = ground (arith, eq_iff a c, eq_iff b d)

instance abbrev pub pair_key : Key (String × String)
pair_key = record { same = pair_same; same_iff = pair_same_iff }
