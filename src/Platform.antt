-- ===== src/Platform.antt =====
-- What the program uses and does not implement, as interfaces: the arrays and the clamps of
-- lib/cutils and the hash table of lib/ght (git submodules), and the machine's floating point.
-- Each is a record of operations; what the code relies on is a second record, `Is…`, a named
-- hypothesis of the theorems that need it.
pub mod Models
use wa_game.Prelude.{
  take, drop, ◌≡◌, ◌≤◌, Bool, true, false, Option, none, some, List, [], ◌∷◌, ◌++◌, ℕ, ◌==◌,
  if◌then◌else◌,
}
use wa_game.Prelude.Int.{ℤ, ◌≤ℤ◌}

-- `array_t` of cutils, seen through `count` and `buf` as the list of its elements.
pub record ArrayApi : Type 1 where
  -- `array_add_voidp`, `array_add_i32`, `array_add_into`
  pub add : {A : Type 0} → List A → A → List A
  -- `array_erase`
  pub erase : {A : Type 0} → List A → ℕ → List A

-- Adding appends at the end; erasing takes out one place.
pub record IsArray (api : ArrayApi) : Type 1 where
  pub add_lem : {A : Type 0} (xs : List A) (x : A) → api.add xs x ≡ xs ++ (x ∷ [])
  pub erase_lem :
      {A : Type 0} (xs : List A) (i : ℕ) → api.erase xs i ≡ take i xs ++ drop (ℕ.suc i) xs

-- `ght_t`. The table owns the objects behind its pointers, so a pointer to one is its key;
-- `write` is a store through the pointer that `ght_get` returns, and `keys` the order in which
-- `GHT_FOREACH` visits.
pub record Ght : Type 1 where
  pub Table : Type 0 → Type 0
  pub init : (V : Type 0) → Table V
  pub get : {V : Type 0} → Table V → ℕ → Option V
  pub insert : {V : Type 0} → Table V → ℕ → V → Table V
  pub write : {V : Type 0} → Table V → ℕ → V → Table V
  pub del : {V : Type 0} → Table V → ℕ → Table V
  pub clear : {V : Type 0} → Table V → Table V
  pub keys : {V : Type 0} → Table V → List ℕ

-- A key is found after it is inserted, not after it is deleted, and neither touches another key.
pub record IsGht (ght : Ght) : Type 1 where
  pub get-insert :
      {V : Type 0} (t : ght.Table V) (k j : ℕ) (v : V)
      → ght.get t k ≡ none
      → ght.get (ght.insert t k v) j ≡ (if j == k then some v else ght.get t j)
  pub get-write :
      {V : Type 0} (t : ght.Table V) (k j : ℕ) (v : V)
      → ght.get (ght.write t k v) j
        ≡ (if j == k then (elim (ght.get t k) [ none ↦ none | some _ ↦ some v ]) else ght.get t j)
  pub get-del :
      {V : Type 0} (t : ght.Table V) (k j : ℕ)
      → ght.get (ght.del t k) j ≡ (if j == k then none else ght.get t j)
  pub get-clear : {V : Type 0} (t : ght.Table V) (j : ℕ) → ght.get (ght.clear t) j ≡ none

-- The operations of one floating point format. `lt` and `le` are C's `<` and `<=`.
pub record FloatOps (F : Type 0) : Type 0 where
  pub add : F → F → F
  pub sub : F → F → F
  pub mul : F → F → F
  pub div : F → F → F
  pub neg : F → F
  pub lt : F → F → Bool
  pub le : F → F → Bool
  pub eq : F → F → Bool
  -- conversion from an integer, and to one, towards zero
  pub of_ℤ : ℤ → F
  pub to_ℤ : F → ℤ

-- `f32` and `f64` with the functions of math.h and the clamps of cutils.
pub record Floats : Type 1 where
  pub F32 : Type 0
  pub F64 : Type 0
  pub s : FloatOps F32
  pub d : FloatOps F64
  pub widen : F32 → F64
  pub narrow : F64 → F32
  -- the `double` that a decimal literal denotes: `decimal p q` is p / q
  pub decimal : ℕ → ℕ → F64
  pub sqrtf : F32 → F32
  pub powf : F32 → F32 → F32
  pub fabsf : F32 → F32
  pub fmaxf : F32 → F32 → F32
  pub fminf : F32 → F32 → F32
  pub floorf : F32 → F32
  pub isnanf : F32 → Bool
  pub fabs : F64 → F64
  pub ceil : F64 → F64
  pub clampf : F32 → F32 → F32 → F32
  pub clampf64 : F64 → F64 → F64 → F64
  pub clampi : ℤ → ℤ → ℤ → ℤ

-- `clampi(x, lo, hi)` lies between its bounds.
pub record IsClamp (floats : Floats) : Type 0 where
  pub clampi-bounds :
      (x lo hi : ℤ) → lo ≤ℤ hi → (lo ≤ℤ floats.clampi x lo hi) × (floats.clampi x lo hi ≤ℤ hi)

-- All of them.
pub record Platform : Type 1 where
  pub arrays : ArrayApi
  pub ght : Ght
  pub floats : Floats
