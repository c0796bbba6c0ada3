-- ===== src/Literal/Laws.antt =====
-- lib/wildmatch.c: `doliteral` compares with the joined strings, and `trailing_N_elements` cuts them at a
-- slash.
use rsync_wrapper.Prelude.{ℕ, suc, ◌+◌, ◌<◌, ◌≡◌, refl, arith, ap, ◌∙◌, sym, ◌==◌, if◌then◌else◌}
use rsync_wrapper.Prelude.{
  Bytes, List, [], ◌∷◌, ◌++◌, some, append_assoc, Bool-cases, inl, inr, ==_iff, some_inj,
}
use rsync_wrapper.Match.Search.{bytes_eq}
use rsync_wrapper.Literal.{
  next_char, all_empty, doliteral, Elements, here, missing, at_slash, trailing_in, trailing_among,
  whole, trailing_elements,
}

-- The joined strings, and the number of slashes in a string.
unfoldable pub joined : List Bytes → Bytes
joined [] = []
joined (t ∷ a) = t ++ joined a

unfoldable pub slashes : Bytes → ℕ
slashes [] = 0
slashes (c ∷ s) = (if c == 47 then 1 else 0) + slashes s

-- Matching a literal string against a text and an array of strings is comparing it with all of them
-- joined, wherever the pieces are cut and whichever of them are empty.
pub doliteral_lem :
    (s text : Bytes) (a : List Bytes) → doliteral s text a ≡ bytes_eq s (text ++ joined a)
unfolding doliteral bytes_eq joined next_char all_empty
doliteral_lem [] [] [] = refl
doliteral_lem [] [] (t ∷ a) = doliteral_lem [] t a
doliteral_lem [] (d ∷ text) a = refl
doliteral_lem (c ∷ s) [] [] = refl
doliteral_lem (c ∷ s) [] (t ∷ a) = doliteral_lem (c ∷ s) t a
doliteral_lem (c ∷ s) (d ∷ text) a = ground (arith, doliteral_lem s text a)

slashes-append : (x y : Bytes) → slashes (x ++ y) ≡ slashes x + slashes y
unfolding slashes
slashes-append [] y = omega arith
slashes-append (c ∷ x) y = omega (arith, slashes-append x y)

-- A cut behind a slash that leaves `n - 1` slashes, or what is still to be counted.
Cut : (whole_text : Bytes) (n : ℕ) → Elements Bytes → Type 0
Cut s n (here r) = (front : Bytes) × (s ≡ front ++ r) × (suc (slashes r) ≡ n)
Cut s n (missing k) = (slashes s + k ≡ n) × (0 < k)

at_slash-Cut :
    (c : ℕ) (s : Bytes) (n k : ℕ) → slashes s + k ≡ n → 0 < k → Cut (c ∷ s) n (at_slash c s k)
unfolding at_slash slashes Cut
at_slash-Cut c s n k e h = elim (Bool-cases (c == 47)) [
  | inl slash ↦ elim (Bool-cases (k == 1)) [
    | inl last ↦ rw (slash, last) (c ∷ [], refl, ground arith)
    | inr more ↦ rw (slash, more) (ground arith, ground arith)
  ]
  | inr other ↦ rw other (ground arith, h)
]

in_front : (c : ℕ) (s : Bytes) (n : ℕ) (r : Bytes) → Cut s n (here r) → Cut (c ∷ s) n (here r)
unfolding Cut
in_front c s n r (front, e, count) = (c ∷ front, ap (c ∷◌) e, count)

trailing_in-Cut : (s : Bytes) (n : ℕ) → 0 < n → Cut s n (trailing_in s n)
unfolding trailing_in
trailing_in-Cut [] n h = unfold Cut slashes in (omega arith, h)
trailing_in-Cut (c ∷ s) n h = go (trailing_in s n) (trailing_in-Cut s n h)
  where
    go :
        (o : Elements Bytes)
        → Cut s n o
        → Cut (c ∷ s) n (elim o [ here found ↦ here found | missing left ↦ at_slash c s left ])
    go (here r) p = in_front c s n r p
    go (missing k) p = unfold Cut in at_slash-Cut c s n k p.0 p.1

-- The same for the joined strings.
CutAmong : (texts : List Bytes) (n : ℕ) → Elements (Bytes × List Bytes) → Type 0
CutAmong texts n (here (r, a)) =
    (front : Bytes) × (joined texts ≡ front ++ (r ++ joined a))
    × (suc (slashes (r ++ joined a)) ≡ n)
CutAmong texts n (missing k) = (slashes (joined texts) + k ≡ n) × (0 < k)

-- The string `t` before strings in which `k` slashes are still to be counted.
before_text :
    (t : Bytes) (a : List Bytes) (n k : ℕ) (o : Elements Bytes)
    → slashes (joined a) + k ≡ n
    → Cut t k o
    → CutAmong (t ∷ a) n (elim o [ here s ↦ here (s, a) | missing left ↦ missing left ])
unfolding CutAmong Cut joined
before_text t a n k (here r) e (front, same, count) = (
  front,
  ap (λ (x : Bytes). x ++ joined a) same ∙ append_assoc front r (joined a),
  omega (arith, slashes-append r (joined a)),
)
before_text t a n k (missing left) e (count, h) = (omega (arith, slashes-append t (joined a)), h)

behind_text :
    (t : Bytes) (a : List Bytes) (n : ℕ) (found : Bytes × List Bytes)
    → CutAmong a n (here found)
    → CutAmong (t ∷ a) n (here found)
unfolding CutAmong joined
behind_text t a n (r, a') (front, same, count) =
    (t ++ front, ap (t ++◌) same ∙ sym (append_assoc t front (r ++ joined a')), count)

trailing_among-CutAmong :
    (texts : List Bytes) (n : ℕ) → 0 < n → CutAmong texts n (trailing_among texts n)
unfolding trailing_among
trailing_among-CutAmong [] n h = unfold CutAmong joined slashes in (omega arith, h)
trailing_among-CutAmong (t ∷ a) n h = go (trailing_among a n) (trailing_among-CutAmong a n h)
  where
    go :
        (o : Elements (Bytes × List Bytes))
        → CutAmong a n o
        → CutAmong (t ∷ a) n (elim o [
          | here found ↦ here found
          | missing left ↦ elim (trailing_in t left) [
            | here s ↦ here (s, a)
            | missing left' ↦ missing left'
          ]
        ])
    go (here found) p = behind_text t a n found p
    go (missing k) p =
        unfold CutAmong in before_text t a n k (trailing_in t k) p.0 (trailing_in-Cut t k p.1)

some-same : (x y : Bytes × List Bytes) → some x ≡ some y → x.0 ++ joined x.1 ≡ y.0 ++ joined y.1
some-same x y h = cc

whole_cut :
    (texts : List Bytes) (n k : ℕ) (r : Bytes) (a : List Bytes)
    → CutAmong texts n (missing k)
    → whole texts k ≡ some (r, a)
    → CutAmong texts n (here (r, a))
unfolding whole CutAmong joined
whole_cut [] n k r a p e = cc
whole_cut (t ∷ b) n k r a p e = elim (Bool-cases (k == 1)) [
  | inl last ↦
      let same : t ++ joined b ≡ r ++ joined a = some-same (t, b) (r, a) (rw last at e) in
      let count : slashes (t ++ joined b) + k ≡ n = p.0 in
      let one : k ≡ 1 = (==_iff k 1).0 last in ([], same, omega (arith, ap slashes same))
  | inr more ↦ ground arith
]

-- The last `n` elements of a path that is given in pieces, for a positive n: if `trailing_N_elements` returns
-- a place, what stands from there on is the end of the joined strings, and has one slash less than n.
pub trailing_elements_lem :
    (texts : List Bytes) (n : ℕ) (r : Bytes) (a : List Bytes)
    → 0 < n
    → trailing_elements texts n ≡ some (r, a)
    → (front : Bytes) × (joined texts ≡ front ++ (r ++ joined a))
      × (suc (slashes (r ++ joined a)) ≡ n)
unfolding trailing_elements CutAmong
trailing_elements_lem texts n r a h e =
    go (trailing_among texts n) (trailing_among-CutAmong texts n h) e
  where
    go :
        (o : Elements (Bytes × List Bytes))
        → CutAmong texts n o
        → elim o [ here found ↦ some found | missing left ↦ whole texts left ] ≡ some (r, a)
        → CutAmong texts n (here (r, a))
    go (here found) p e' = rw (some_inj e') at p
    go (missing k) p e' = whole_cut texts n k r a p e'
