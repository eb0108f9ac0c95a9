-- ===== src/Server/NoteStore/Eviction.antt =====
-- The eviction loop of `NoteStore::insert` in server/src/note_store.rs: when it ends, and what it
-- leaves.
use cachecash.Prelude.{
  ℕ, zero, suc, ◌-◌, ◌≤◌, ◌<◌, ◌≡◌, refl, sym, ◌∙◌, ap, true, false, none, some, List, [], ◌∷◌,
  length, drop, leb, leb→le, arith, Bool-cases, inl, inr,
}
use cachecash.Server.NoteStore.{evict, pop_front}

evict-done {ℓ} :
    {A : Type ℓ} (fuel max : ℕ) (queue : List A)
    → leb max (length queue) ≡ false
    → evict (suc fuel) max queue ≡ some queue
unfolding evict
evict-done fuel max queue h = rw (h, evict) refl

evict-step {ℓ} :
    {A : Type ℓ} (fuel max : ℕ) (queue : List A)
    → leb max (length queue) ≡ true
    → evict (suc fuel) max queue ≡ evict fuel max (pop_front queue)
unfolding evict
evict-step fuel max queue h = rw (h, evict) refl

zero_sub : (m : ℕ) → 0 - m ≡ 0
zero_sub m = omega arith

one_more : (l m : ℕ) → suc m ≤ suc l → suc l - m ≡ suc (l - m)
one_more l m h = omega (arith, h)

none_over : (l m : ℕ) → leb (suc m) (suc l) ≡ false → suc l - m ≡ 0
none_over l m h = ground arith

-- With a maximum of at least one, fuel for each entry and one more is enough, and the entries that
-- are left are the last `max - 1` of them, or all when there are fewer.
pub evict-drop {ℓ} :
    {A : Type ℓ} (max fuel : ℕ) (queue : List A)
    → length queue < fuel
    → evict fuel (suc max) queue ≡ some (drop (length queue - max) queue)
evict-drop max zero queue h = absurd (omega (arith, h))
evict-drop max (suc fuel) [] h =
    evict-done fuel (suc max) [] (ground arith)
    ∙ ap (λ (n : ℕ). some (drop n [])) (sym (zero_sub max))
evict-drop max (suc fuel) (x ∷ queue) h = elim (Bool-cases (leb (suc max) (suc (length queue)))) [
  | inl full ↦
      evict-step fuel (suc max) (x ∷ queue) full
      ∙ (evict-drop max fuel queue (omega (arith, h))
          ∙ ap (λ (n : ℕ). some (drop n (x ∷ queue)))
              (sym (one_more (length queue) max (leb→le (suc max) (suc (length queue)) full))))
  | inr room ↦
      evict-done fuel (suc max) (x ∷ queue) room
      ∙ ap (λ (n : ℕ). some (drop n (x ∷ queue))) (sym (none_over (length queue) max room))
]

-- With a maximum of zero the loop never ends, however much fuel it is given: it runs on the empty
-- queue again and again.
pub evict_zero {ℓ} : {A : Type ℓ} (fuel : ℕ) (queue : List A) → evict fuel 0 queue ≡ none
unfolding evict
evict_zero zero queue = refl
evict_zero (suc fuel) queue = ground (arith, evict_zero fuel (pop_front queue))
