-- ===== src/Prelude/Loops.antt =====
-- Counted loops whose body may fault, with the rule that keeps an invariant.
use Prim.Native.Nat.{ℕ, zero, suc, ◌+◌, ◌≤◌, ◌<◌}
use mathlib.Core.Path.{◌≡◌, refl}
use mathlib.Core.Option.{Option, none, some}
use native.Mathlib.Omega.{arith}

-- `none` is a fault of the C program: an access outside an allocation or through a bad pointer.
infixl 5 ◌>>=◌ ◌>>◌
abbrev pub ◌>>=◌ {ℓ κ} : {A : Type ℓ} {B : Type κ} → Option A → (A → Option B) → Option B
none >>= f = none
some a >>= f = f a

abbrev pub ◌>>◌ {ℓ} : {B : Type ℓ} → Option (Unit {0}) → Option B → Option B
m >> k = m >>= λ _. k

-- The computation does not fault, and its result meets `P`.
abbrev pub Returns {ℓ κ} : {A : Type ℓ} → Option A → (A → Type κ) → Type (ℓ ⊔ κ)
Returns {A = A} o P = (a : A) × (o ≡ some a) × P a

module _ {ℓ} {S : Type ℓ} where
  -- `for (i = start; i < start + n; i++) body`
  unfoldable pub for_range : ℕ → ℕ → (ℕ → S → Option S) → S → Option S
  for_range zero i body s = some s
  for_range (suc n) i body s = body i s >>= for_range n (suc i) body

  Returns-bind {κ} :
      (P : ℕ → S → Type κ) (f : S → Option S) {k m : ℕ} (o : Option S)
      → k ≡ m
      → Returns o (λ t. Returns (f t) (P k))
      → Returns (o >>= f) (P m)
  Returns-bind P f o e (t, p, (u, q, h)) = rw p (u, q, rw e at h)

  -- The loop keeps an invariant that each round takes from `i` to `i + 1`.
  pub for_range_inv {κ} :
      (P : ℕ → S → Type κ) (n i : ℕ) (body : ℕ → S → Option S)
      → ((k : ℕ) (s : S) → i ≤ k → k < i + n → P k s → Returns (body k s) (P (suc k)))
      → (s : S) → P i s
      → Returns (for_range n i body s) (P (i + n))
  unfolding for_range
  for_range_inv P zero i body keep s h =
      let e : i ≡ i + zero = omega arith in (s, refl, rw (e) at h)
  for_range_inv P (suc n) i body keep s h =
      let (t, e, p) = keep i s (omega arith) (omega arith) h in
      Returns-bind P (for_range n (suc i) body) (body i s) (omega arith)
        (t, e, for_range_inv P n (suc i) body (λ k u a b. keep k u (omega arith) (omega arith)) t p)

  -- The same for a loop that starts at 0.
  pub for_range_from_zero {κ} :
      (P : ℕ → S → Type κ) (n : ℕ) (body : ℕ → S → Option S)
      → ((k : ℕ) (s : S) → k < n → P k s → Returns (body k s) (P (suc k)))
      → (s : S) → P 0 s
      → Returns (for_range n 0 body s) (P n)
  for_range_from_zero P n body keep s h =
      let (t, e, p) = for_range_inv P n 0 body (λ k u _ b. keep k u (omega arith)) s h in
      let z : 0 + n ≡ n = omega arith in (t, e, rw z at p)
