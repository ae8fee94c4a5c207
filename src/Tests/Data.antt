-- ===== src/Tests/Data.antt =====
-- Surroundings and documents that the tests share.
use remote_llmconnector.Shared.{
  Env, ℕ, zero, suc, ◌+◌, ◌-◌, String, true, Option, some, ◌≡◌, refl, arith, truthy, eq_iff, ◌==◌,
  Bool-cases, inl, inr,
}

-- A clock text: one letter more than the time.
unfoldable pub clock_text : ℕ → String
clock_text zero = "t"
clock_text (suc n) = String.◌∷◌ "t" (clock_text n)

unfoldable pub letters : String → ℕ
letters String.[] = 0
letters (String.◌∷◌ c s) = letters s + 1

unfoldable pub read_clock : String → Option ℕ
unfolding letters
read_clock s = some (letters s - 1)

letters-clock_text : (t : ℕ) → letters (clock_text t) ≡ t + 1
unfolding letters clock_text
letters-clock_text zero = omega arith
letters-clock_text (suc n) = omega (arith, letters-clock_text n)

pub read_clock-clock_text : (t : ℕ) → read_clock (clock_text t) ≡ some t
unfolding read_clock
read_clock-clock_text t = rw (letters-clock_text t) (ground arith)

pub truthy-clock_text : (t : ℕ) → truthy (clock_text t) ≡ true
unfolding clock_text
truthy-clock_text zero = refl
truthy-clock_text (suc n) = elim (Bool-cases (clock_text (suc n) == "")) [
  | inl e ↦ let h : clock_text (suc n) ≡ "" = (eq_iff (clock_text (suc n)) "").0 e in cc h
  | inr e ↦ rw e refl
]

-- The surroundings of a call.
abbrev pub env_with : String → Env
env_with hex = record { now = 5; hex = hex; writable = true; isoformat = λ _. "t" }

abbrev pub env : Env
env = env_with "a1"
