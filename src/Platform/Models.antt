-- ===== src/Platform/Models.antt =====
-- Concrete instances of the interfaces, at which the hypotheses about them hold: arrays are lists,
-- a table is a list of its entries, and a number of either floating point format is an integer.
use wa_game.Prelude.{
  ℕ, ◌≡◌, refl, arith, false, Option, none, some, List, [], ◌∷◌, ◌++◌, ◌==◌, if◌then◌else◌, ◌||◌,
  drop, take,
}
use wa_game.Prelude.Int.{ℤ, pos, ◌+ℤ◌, ◌-ℤ◌, ◌*ℤ◌, ltb_ℤ, eqb_ℤ}
use wa_game.Platform.{ArrayApi, IsArray, Ght, IsGht, FloatOps, Floats, IsClamp, Platform}

abbrev pub arrays : ArrayApi
arrays = record {
  add = λ {A} xs x. xs ++ (x ∷ []);
  erase = λ {A} xs i. take i xs ++ drop (ℕ.suc i) xs;
}

pub arrays-IsArray : IsArray arrays
arrays-IsArray = record { add_lem = λ {A} xs x. refl; erase_lem = λ {A} xs i. refl }

abbrev pub find : {V : Type 0} → List (ℕ × V) → ℕ → Option V
find [] j = none
find ((k, v) ∷ t) j = if j == k then some v else find t j

abbrev store : {V : Type 0} → List (ℕ × V) → ℕ → V → List (ℕ × V)
store [] k w = []
store ((j, v) ∷ t) k w = if j == k then (j, w) ∷ store t k w else (j, v) ∷ store t k w

abbrev remove : {V : Type 0} → List (ℕ × V) → ℕ → List (ℕ × V)
remove [] k = []
remove ((j, v) ∷ t) k = if j == k then remove t k else (j, v) ∷ remove t k

abbrev pub without : ℕ → List ℕ → List ℕ
without k [] = []
without k (j ∷ js) = if j == k then without k js else j ∷ without k js

abbrev pub visit : {V : Type 0} → List (ℕ × V) → List ℕ
visit [] = []
visit ((k, v) ∷ t) = k ∷ without k (visit t)

abbrev pub ght : Ght
ght = record {
  Table = λ V. List (ℕ × V);
  init = λ V. [];
  get = λ {V} t k. find t k;
  insert = λ {V} t k v. (k, v) ∷ t;
  write = λ {V} t k v. store t k v;
  del = λ {V} t k. remove t k;
  clear = λ {V} t. [];
  keys = λ {V} t. visit t;
}

find-store :
    {V : Type 0} (t : List (ℕ × V)) (k j : ℕ) (w : V)
    → find (store t k w) j
      ≡ (if j == k then (elim (find t k) [ none ↦ none | some _ ↦ some w ]) else find t j)
find-store [] k j w = ground arith
find-store ((i, v) ∷ t) k j w = grind (arith, find-store t k j w)

find-remove :
    {V : Type 0} (t : List (ℕ × V)) (k j : ℕ)
    → find (remove t k) j ≡ (if j == k then none else find t j)
find-remove [] k j = ground arith
find-remove ((i, v) ∷ t) k j = grind (arith, find-remove t k j)

pub ght-IsGht : IsGht ght
ght-IsGht = record {
  get-insert = λ {V} t k j v absent. refl;
  get-write = λ {V} t k j v. find-store t k j v;
  get-del = λ {V} t k j. find-remove t k j;
  get-clear = λ {V} t j. refl;
}

abbrev integers : FloatOps ℤ
integers = record {
  add = λ a b. a +ℤ b;
  sub = λ a b. a -ℤ b;
  mul = λ a b. a *ℤ b;
  div = λ a b. a;
  neg = λ a. pos 0 -ℤ a;
  lt = ltb_ℤ;
  le = λ a b. ltb_ℤ a b || eqb_ℤ a b;
  eq = eqb_ℤ;
  of_ℤ = λ a. a;
  to_ℤ = λ a. a;
}

abbrev clamp : ℤ → ℤ → ℤ → ℤ
clamp x lo hi = if ltb_ℤ x lo then lo else if ltb_ℤ hi x then hi else x

abbrev pub floats : Floats
floats = record {
  F32 = ℤ;
  F64 = ℤ;
  s = integers;
  d = integers;
  widen = λ a. a;
  narrow = λ a. a;
  decimal = λ p q. pos p;
  sqrtf = λ a. a;
  powf = λ a b. a;
  fabsf = λ a. if ltb_ℤ a (pos 0) then pos 0 -ℤ a else a;
  fmaxf = λ a b. if ltb_ℤ a b then b else a;
  fminf = λ a b. if ltb_ℤ b a then b else a;
  floorf = λ a. a;
  isnanf = λ a. false;
  fabs = λ a. if ltb_ℤ a (pos 0) then pos 0 -ℤ a else a;
  ceil = λ a. a;
  clampf = clamp;
  clampf64 = clamp;
  clampi = clamp;
}

abbrev pub machine : Platform
machine = record { arrays = arrays; ght = ght; floats = floats }

pub floats-IsClamp : IsClamp floats
floats-IsClamp = record { clampi-bounds = λ x lo hi h. ground arith }
