-- ===== src/Vtk/Workers/Order.antt =====
-- Tasks that copy parts of one byte string, in any order.
use cae_openusd_plugins.Prelude.{
  ℕ, ◌+◌, ◌-◌, ◌≤◌, ◌<◌, ◌≡◌, ◌⊎◌, inl, inr, refl, sym, subst, ap, ◌∙◌, List, [], ◌∷◌, ◌++◌, Bytes,
  length, take, drop, get_elem?, length-append, length-take, length-drop, Bool-cases, leb, arith,
  leb→le,
}
use cae_openusd_plugins.Prelude.Pointwise.{
  get_elem?-append_left, get_elem?-append_right, get_elem?-take, get_elem?-drop, pointwise-eq,
}
use cae_openusd_plugins.Prelude.Result.{Result, ok, ok-bind}
use cae_openusd_plugins.Vtk.Error.{Error}
use cae_openusd_plugins.Vtk.Workers.{write_at, run_tasks}

pub length-write_at :
    (o : ℕ) (bytes target : Bytes)
    → o + length bytes ≤ length target
    → length (write_at o bytes target) ≡ length target
unfolding write_at
length-write_at o bytes target h =
    let outer = length-append (take o target) (bytes ++ drop (o + length bytes) target) in
    let inner = length-append bytes (drop (o + length bytes) target) in
    let front = length-take o target in
    let back = length-drop (o + length bytes) target in omega (arith, outer, inner, front, back)

module _ (o : ℕ) (bytes target : Bytes) (h : o + length bytes ≤ length target) (j : ℕ) where
  front_length : length (take o target) ≡ o
  front_length = omega (arith, length-take o target)

  pub get_elem?-write_at_before : j < o → get_elem? (write_at o bytes target) j ≡ get_elem? target j
  unfolding write_at
  get_elem?-write_at_before k =
      get_elem?-append_left (take o target) _ j (omega (arith, front_length))
      ∙ get_elem?-take o target j k

  pub get_elem?-write_at_inside :
      j < length bytes → get_elem? (write_at o bytes target) (o + j) ≡ get_elem? bytes j
  unfolding write_at
  get_elem?-write_at_inside k =
      let e : o + j ≡ length (take o target) + j = ap (λ n. n + j) (sym front_length) in
      ap (get_elem? (write_at o bytes target)) e
      ∙ get_elem?-append_right (take o target) _ j
      ∙ get_elem?-append_left bytes _ j k

  pub get_elem?-write_at_after :
      get_elem? (write_at o bytes target) (o + (length bytes + j))
      ≡ get_elem? target (o + (length bytes + j))
  unfolding write_at
  get_elem?-write_at_after =
      let e : o + (length bytes + j) ≡ length (take o target) + (length bytes + j) =
        ap (λ n. n + (length bytes + j)) (sym front_length) in
      let e' : o + length bytes + j ≡ o + (length bytes + j) = omega arith in
      ap (get_elem? (write_at o bytes target)) e
      ∙ get_elem?-append_right (take o target) _ (length bytes + j)
      ∙ get_elem?-append_right bytes _ j
      ∙ get_elem?-drop (o + length bytes) target j
      ∙ ap (get_elem? target) e'

abbrev pub slice : ℕ → ℕ → Bytes → Bytes
slice lo hi source = take (hi - lo) (drop lo source)

pub length-slice :
    (lo hi : ℕ) (source : Bytes) → hi ≤ length source → length (slice lo hi source) ≡ hi - lo
length-slice lo hi source h =
    omega (arith, length-take (hi - lo) (drop lo source), length-drop lo source)

pub get_elem?-slice :
    (lo hi : ℕ) (source : Bytes) (j : ℕ)
    → j < hi - lo
    → get_elem? (slice lo hi source) j ≡ get_elem? source (lo + j)
get_elem?-slice lo hi source j h =
    get_elem?-take (hi - lo) (drop lo source) j h ∙ get_elem?-drop lo source j

pub le_or_lt : (a b : ℕ) → (a ≤ b) ⊎ (b < a)
le_or_lt a b = elim (Bool-cases (leb a b)) [
  | inl e ↦ inl (leb→le a b e)
  | inr e ↦ inr (ground (arith, e))
]

module _ (lo hi : ℕ) (source buffer : Bytes) (ordered : lo ≤ hi) (inside : hi ≤ length source) where
  module _ (room : length buffer ≡ length source) where
    stored : length (slice lo hi source) ≡ hi - lo
    stored = length-slice lo hi source inside

    fits : lo + length (slice lo hi source) ≤ length buffer
    fits = omega (arith, stored)

    pub length-write_slice : length (write_at lo (slice lo hi source) buffer) ≡ length source
    length-write_slice = length-write_at lo (slice lo hi source) buffer fits ∙ room

    elsewhere :
        {j : ℕ}
        → (get_elem? buffer j ≡ get_elem? source j) ⊎ ((lo ≤ j) × (j < hi))
        → ¬ ((lo ≤ j) × (j < hi))
        → get_elem? buffer j ≡ get_elem? source j
    elsewhere (inl e) out = e
    elsewhere (inr p) out = absurd (out p)

    get_within :
        (j : ℕ)
        → lo ≤ j
        → j < hi
        → get_elem? (write_at lo (slice lo hi source) buffer) j ≡ get_elem? source j
    get_within j from within =
        let e : j ≡ lo + (j - lo) = omega arith in
        ap (get_elem? (write_at lo (slice lo hi source) buffer)) e
        ∙ get_elem?-write_at_inside lo (slice lo hi source) buffer fits (j - lo)
            (omega (arith, stored))
        ∙ get_elem?-slice lo hi source (j - lo) (omega arith)
        ∙ ap (get_elem? source) (sym e)

    get_after :
        (j : ℕ)
        → hi ≤ j
        → get_elem? (write_at lo (slice lo hi source) buffer) j ≡ get_elem? buffer j
    get_after j after =
        let e : j ≡ lo + (length (slice lo hi source) + (j - hi)) = omega (arith, stored) in
        ap (get_elem? (write_at lo (slice lo hi source) buffer)) e
        ∙ get_elem?-write_at_after lo (slice lo hi source) buffer fits (j - hi)
        ∙ ap (get_elem? buffer) (sym e)

    -- The buffer is right where it was, and in the part that is stored.
    get_elem?-write_slice :
        (j : ℕ)
        → (get_elem? buffer j ≡ get_elem? source j) ⊎ ((lo ≤ j) × (j < hi))
        → get_elem? (write_at lo (slice lo hi source) buffer) j ≡ get_elem? source j
    get_elem?-write_slice j known = elim (le_or_lt lo j) [
      | inr before ↦
          get_elem?-write_at_before lo (slice lo hi source) buffer fits j before
          ∙ elsewhere known (λ p. omega (arith, before, p.0))
      | inl from ↦ elim (le_or_lt hi j) [
        | inr within ↦ get_within j from within
        | inl after ↦ get_after j after ∙ elsewhere known (λ p. omega (arith, after, p.1))
      ]
    ]

-- The schedule has the task `t`.
abbrev pub IsScheduled : ℕ → List ℕ → Type 0
IsScheduled t [] = ⊥
IsScheduled t (x ∷ schedule) = (t ≡ x) ⊎ IsScheduled t schedule

module _ (source : Bytes) (lo hi : ℕ → ℕ) (ordered : (t : ℕ) → lo t ≤ hi t)
    (task : ℕ → Bytes → Result Error Bytes) where
  -- What a task does to a buffer of the right length.
  abbrev pub Copies : List ℕ → Type 0
  Copies schedule =
      (t : ℕ)
      → IsScheduled t schedule
      → (hi t ≤ length source)
        × ((buffer : Bytes)
            → length buffer ≡ length source
            → task t buffer ≡ ok (write_at (lo t) (slice (lo t) (hi t) source) buffer))

  Covered : ℕ → List ℕ → Type 0
  Covered j schedule = (t : ℕ) × IsScheduled t schedule × (lo t ≤ j) × (j < hi t)

  -- What is known of a byte after the first task of a schedule.
  after_one :
      (t : ℕ) (rest : List ℕ) (buffer : Bytes) (j : ℕ)
      → hi t ≤ length source
      → length buffer ≡ length source
      → (get_elem? buffer j ≡ get_elem? source j) ⊎ Covered j (t ∷ rest)
      → (get_elem? (write_at (lo t) (slice (lo t) (hi t) source) buffer) j ≡ get_elem? source j)
        ⊎ Covered j rest
  unfolding Covered
  after_one t rest buffer j inside room (inl e) =
      inl (get_elem?-write_slice (lo t) (hi t) source buffer (ordered t) inside room j (inl e))
  after_one t rest buffer j inside room (inr (u, inr s, c, d)) = inr (u, s, c, d)
  after_one t rest buffer j inside room (inr (u, inl e, c, d)) = inl (
      get_elem?-write_slice (lo t) (hi t) source buffer (ordered t) inside room j
        (inr (subst (λ u. (lo u ≤ j) × (j < hi u)) e (c, d))))

  run_tasks-fills :
      (schedule : List ℕ) (buffer : Bytes)
      → Copies schedule
      → length buffer ≡ length source
      → (filled : Bytes) × (run_tasks task schedule buffer ≡ ok filled)
        × (length filled ≡ length source)
        × ((j : ℕ)
            → (get_elem? buffer j ≡ get_elem? source j) ⊎ Covered j schedule
            → get_elem? filled j ≡ get_elem? source j)
  unfolding run_tasks Covered
  run_tasks-fills [] buffer copies room =
      (buffer, refl, room, λ j known. elim known [ inl e ↦ e | inr c ↦ absurd c.1 ])
  run_tasks-fills (t ∷ rest) buffer copies room =
      let (inside, runs) = copies t (inl refl) in
      let next = write_at (lo t) (slice (lo t) (hi t) source) buffer in
      let (filled, run, size, right) =
        run_tasks-fills rest next (λ u s. copies u (inr s))
          (length-write_slice (lo t) (hi t) source buffer (ordered t) inside room) in
      (
        filled,
        rw (runs buffer room, ok-bind) run,
        size,
        λ j known. right j (after_one t rest buffer j inside room known),
      )

  -- A schedule that has a task for every byte leaves the source in the buffer.
  pub run_tasks-any_order :
      (schedule : List ℕ) (buffer : Bytes)
      → Copies schedule
      → length buffer ≡ length source
      → ((j : ℕ) → j < length source → (t : ℕ) × IsScheduled t schedule × (lo t ≤ j) × (j < hi t))
      → run_tasks task schedule buffer ≡ ok source
  unfolding Covered
  run_tasks-any_order schedule buffer copies room covers =
      let (filled, run, size, right) = run_tasks-fills schedule buffer copies room in
      run ∙ ap ok (pointwise-eq filled source size (λ j h. right j (inr (covers j h))))
