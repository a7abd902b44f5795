-- ===== src/Text/Split.antt =====
-- `strings.Split`, put together again.
use docpulse.Base.{
  ℕ, zero, suc, ◌-◌, ◌≡◌, ◌≢◌, refl, ◌∙◌, ap, true, false, List, [], ◌∷◌, ◌++◌, arith, length, drop,
  Bool-cases, inl, inr,
}
use docpulse.Text.{starts_with, split, push_byte}
use docpulse.Text.Utf8.{Bytes}

-- `strings.Join`
unfoldable pub join : Bytes → List Bytes → Bytes
join sep [] = []
join sep (p ∷ []) = p
join sep (p ∷ q ∷ ps) = p ++ (sep ++ join sep (q ∷ ps))

join-push_byte :
    (sep : Bytes) (b : ℕ) (ps : List Bytes) → join sep (push_byte b ps) ≡ b ∷ join sep ps
unfolding join
join-push_byte sep b [] = refl
join-push_byte sep b (p ∷ []) = refl
join-push_byte sep b (p ∷ q ∷ ps) = refl

split_not_empty : (sep : Bytes) (k : ℕ) (s : Bytes) → split sep k s ≢ []
unfolding split
split_not_empty sep k [] = λ e. cc
split_not_empty sep (suc k) (b ∷ s) = split_not_empty sep k s
split_not_empty sep zero (b ∷ s) = ground (arith, split_not_empty sep 0 s)

join-cons_empty :
    (sep : Bytes) (ps : List Bytes) → ps ≢ [] → join sep ([] ∷ ps) ≡ sep ++ join sep ps
unfolding join
join-cons_empty sep [] n = absurd (n refl)
join-cons_empty sep (p ∷ ps) n = refl

starts_with-drop : (p s : Bytes) → starts_with p s ≡ true → p ++ drop (length p) s ≡ s
starts_with-drop [] s h = refl
starts_with-drop (a ∷ p) [] h = cc
starts_with-drop (a ∷ p) (b ∷ s) h = ground (arith, starts_with-drop p s)

pred : (k : ℕ) → suc k - 1 ≡ k
pred k = omega arith

split_here :
    (sep : Bytes) (b : ℕ) (s : Bytes)
    → starts_with sep (b ∷ s) ≡ true
    → split sep 0 (b ∷ s) ≡ [] ∷ split sep (length sep - 1) s
unfolding split
split_here sep b s e = rw (split, e)

split_later :
    (sep : Bytes) (b : ℕ) (s : Bytes)
    → starts_with sep (b ∷ s) ≡ false
    → split sep 0 (b ∷ s) ≡ push_byte b (split sep 0 s)
unfolding split
split_later sep b s e = rw (split, e)

-- `Join` takes `Split` back.
pub join-split :
    (a : ℕ) (sep : Bytes) (k : ℕ) (s : Bytes) → join (a ∷ sep) (split (a ∷ sep) k s) ≡ drop k s
unfolding split join
join-split a sep zero [] = refl
join-split a sep (suc k) [] = refl
join-split a sep (suc k) (b ∷ s) = join-split a sep k s
join-split a sep zero (b ∷ s) = elim (Bool-cases (starts_with (a ∷ sep) (b ∷ s))) [
  | inl e ↦
      ap (join (a ∷ sep))
        (split_here (a ∷ sep) b s e ∙ ap (λ n. [] ∷ split (a ∷ sep) n s) (pred (length sep)))
      ∙ join-cons_empty (a ∷ sep) (split (a ∷ sep) (length sep) s)
          (split_not_empty (a ∷ sep) (length sep) s)
      ∙ ap (λ k. (a ∷ sep) ++ k) (join-split a sep (length sep) s)
      ∙ starts_with-drop (a ∷ sep) (b ∷ s) e
  | inr e ↦
      ap (join (a ∷ sep)) (split_later (a ∷ sep) b s e)
      ∙ join-push_byte (a ∷ sep) b (split (a ∷ sep) 0 s)
      ∙ ap (λ k. b ∷ k) (join-split a sep 0 s)
]
