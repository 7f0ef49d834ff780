-- ===== src/Client/Editor/Selected.antt =====
-- The map that is selected in the editor's list.
use wa_game.Prelude.{
  ℕ, ◌≡◌, refl, sym, ◌∙◌, arith, Bool, true, false, Option, none, some, List, [], ◌∷◌, ◌==◌,
  if◌then◌else◌, mem, Bool-cases, Option-cases, ◌⊎◌, inl, inr,
}
use wa_game.Platform.{Platform, IsGht}
use wa_game.Server.Broadcast.{IsIteration, count}
use wa_game.Client.Editor.{MapHeader, MapList, unselect, reset_selection, press}

count-mem : (k : ℕ) (js : List ℕ) → count k js ≡ 1 → mem k js ≡ true
count-mem k [] e = absurd (omega arith)
count-mem k (j ∷ js) e = elim (Bool-cases (j == k)) [
  | inl same ↦ let s' : (k == j) ≡ true = ground arith in rw s' refl
  | inr other ↦
      let o' : (k == j) ≡ false = ground arith in
      let e' : count k js ≡ 1 = rw other at e in rw o' (count-mem k js e')
]

module _ (platform : Platform) where
  open platform use {ght}

  abbrev IsOff : ght.Table MapHeader → ℕ → Type 0
  IsOff maps j = (h : MapHeader) → ght.get maps j ≡ some h → h.selected ≡ false

  -- A line of the list is marked just when its map is the selected one.
  abbrev marked : Option ℕ → ℕ → Bool
  marked none j = false
  marked (some k) j = j == k

  abbrev pub IsSelected : MapList platform → Type 0
  IsSelected list =
      (j : ℕ) (h : MapHeader)
      → ght.get list.maps j ≡ some h
      → h.selected ≡ marked list.map_selected j

  module _ (is_ght : IsGht ght) where
    unselect-IsOff :
        (maps : ght.Table MapHeader) (key j : ℕ)
        → (j ≡ key) ⊎ IsOff maps j
        → IsOff (unselect platform maps key (ght.get maps key)) j
    unselect-IsOff maps key j why h e = elim (Option-cases (ght.get maps key)) [
      | inl absent ↦
          let e' : ght.get maps j ≡ some h = rw absent at e in
          elim why [
            | inl same ↦ let bad : none ≡ some h = sym absent ∙ (rw same at e') in absurd (cc)
            | inr off ↦ off h e'
          ]
      | inr (h0, there) ↦ elim (Bool-cases (j == key)) [
        | inl same ↦
            let eq : some (record h0 { selected = false }) ≡ some h =
              rw (there, is_ght.get-write, same, there) at e in
            let now : record h0 { selected = false } ≡ h = cc in rw (← now) refl
        | inr other ↦
            let e' : ght.get maps j ≡ some h = rw (there, is_ght.get-write, other) at e in
            elim why [ inl same ↦ absurd (ground arith) | inr off ↦ off h e' ]
      ]
    ]

    reset_selection-IsOff :
        (keys : List ℕ) (maps : ght.Table MapHeader) (j : ℕ)
        → (mem j keys ≡ true) ⊎ IsOff maps j
        → IsOff (reset_selection platform maps keys) j
    unfolding reset_selection
    reset_selection-IsOff [] maps j (inl m) = absurd (cc)
    reset_selection-IsOff [] maps j (inr off) = off
    reset_selection-IsOff (key ∷ keys) maps j (inr off) =
        reset_selection-IsOff keys _ j (inr (unselect-IsOff maps key j (inr off)))
    reset_selection-IsOff (key ∷ keys) maps j (inl m) = elim (Bool-cases (j == key)) [
      | inl same ↦
          let jk : j ≡ key = ground arith in
          reset_selection-IsOff keys _ j (inr (unselect-IsOff maps key j (inl jk)))
      | inr other ↦
          let m' : mem j keys ≡ true = rw other at m in reset_selection-IsOff keys _ j (inl m')
    ]

    reset-IsOff :
        (iterates : IsIteration platform) (maps : ght.Table MapHeader) (j : ℕ)
        → IsOff (reset_selection platform maps (ght.keys maps)) j
    reset-IsOff iterates maps j = elim (Option-cases (ght.get maps j)) [
      | inl absent ↦
          reset_selection-IsOff (ght.keys maps) maps j
            (inr λ h e. let bad : none ≡ some h = sym absent ∙ e in absurd (cc))
      | inr (h, there) ↦
          let once : count j (ght.keys maps) ≡ 1 = rw there at (iterates.once maps j) in
          reset_selection-IsOff (ght.keys maps) maps j (inl (count-mem j (ght.keys maps) once))
    ]

    pressed-IsSelected :
        (iterates : IsIteration platform) (maps : ght.Table MapHeader) (key : ℕ) (v : MapHeader)
        → v.selected ≡ true
        → IsSelected (record {
          maps = ght.write (reset_selection platform maps (ght.keys maps)) key v;
          map_selected = some key;
        })
    pressed-IsSelected iterates maps key v on j h e =
        let reset = reset_selection platform maps (ght.keys maps) in
        elim (Bool-cases (j == key)) [
          | inr other ↦
              let e' : ght.get reset j ≡ some h = rw (is_ght.get-write, other) at e in
              rw other (reset-IsOff iterates maps j h e')
          | inl same ↦ elim (Option-cases (ght.get reset key)) [
            | inl absent ↦
                let bad : none ≡ some h = rw (is_ght.get-write, same, absent) at e in absurd (cc)
            | inr (h0, there) ↦
                let eq : some v ≡ some h = rw (is_ght.get-write, same, there) at e in
                let now : v ≡ h = cc in rw (same, ← now) on
          ]
        ]

    -- After a press on a map of the list a map is marked just when it is the selected one; that
    -- is the pressed one, or none if it was marked before. The table obeys its laws and its
    -- iteration visits each key once.
    pub press-IsSelected :
        (iterates : IsIteration platform) (list : MapList platform) (key : ℕ) (h : MapHeader)
        → ght.get list.maps key ≡ some h
        → IsSelected (press platform list key)
          × ((press platform list key).map_selected ≡ (if h.selected then none else some key))
    unfolding press
    press-IsSelected iterates list key h there = elim (Bool-cases h.selected) [
      | inl on ↦ rw (there, on) (λ j h' e. reset-IsOff iterates list.maps j h' e, refl)
      | inr off ↦
          rw (there, off)
            (pressed-IsSelected iterates list.maps key (record h { selected = true }) refl, refl)
    ]
