-- ===== src/Paths/Sanitize/Stack.antt =====
-- util.c: what `sanitize_path` has written, as a stack of names.
use rsync_wrapper.Prelude.{ℕ, ◌≤◌, ◌≡◌, ◌≢◌, refl, sym, ap, ◌∙◌, arith, ◌==◌}
use rsync_wrapper.Prelude.{
  Bytes, List, [], ◌∷◌, ◌++◌, length, some, none, append_assoc, length-append, All, Option-cases,
  Bool-cases, inl, inr,
}
use mathlib.Core.Path.{subst}
use rsync_wrapper.Paths.{find_slash}
use rsync_wrapper.Paths.Elements.{longer, elements}
use rsync_wrapper.Paths.Sanitize.{reversed_onto, back_to, copy_component}

-- A name holds no slash.
abbrev pub HasNoSlash : Bytes → Type 0
HasNoSlash [] = Unit {0}
HasNoSlash (c ∷ s) = (c ≢ 47) × HasNoSlash s

-- Names held from their ends back, each with the slash behind it, upon what was there.
unfoldable pub stacked : List Bytes → Bytes → Bytes
stacked [] base = base
stacked (r ∷ rs) base = 47 ∷ (r ++ stacked rs base)

-- The names of a stack from the bottom up, upon a list of names.
unfoldable pub names_onto : List Bytes → List Bytes → List Bytes
names_onto [] more = more
names_onto (r ∷ rs) more = names_onto rs (reversed_onto r [] ∷ more)

pub reversed_onto-append :
    (r s out : Bytes) → reversed_onto (r ++ s) out ≡ reversed_onto s (reversed_onto r out)
unfolding reversed_onto
reversed_onto-append [] s out = refl
reversed_onto-append (c ∷ r) s out = reversed_onto-append r s (c ∷ out)

pub reversed_onto_split : (r out : Bytes) → reversed_onto r out ≡ reversed_onto r [] ++ out
unfolding reversed_onto
reversed_onto_split [] out = refl
reversed_onto_split (c ∷ r) out =
    reversed_onto_split r (c ∷ out)
    ∙ sym (append_assoc (reversed_onto r []) (c ∷ []) out)
    ∙ ap (λ (x : Bytes). x ++ out) (sym (reversed_onto_split r (c ∷ [])))

pub reversed_onto_twice :
    (s out : Bytes) → reversed_onto (reversed_onto s out) [] ≡ reversed_onto out s
unfolding reversed_onto
reversed_onto_twice [] out = refl
reversed_onto_twice (c ∷ s) out = reversed_onto_twice s (c ∷ out)

pub reversed_onto-HasNoSlash :
    (s out : Bytes) → HasNoSlash s → HasNoSlash out → HasNoSlash (reversed_onto s out)
unfolding reversed_onto
reversed_onto-HasNoSlash [] out h k = k
reversed_onto-HasNoSlash (c ∷ s) out h k = reversed_onto-HasNoSlash s (c ∷ out) h.1 (h.0, k)

-- A name in front of a slash is the first element.
elements-name : (s rest : Bytes) → HasNoSlash s → elements (s ++ (47 ∷ rest)) ≡ s ∷ elements rest
unfolding elements longer
elements-name [] rest h = refl
elements-name (c ∷ s) rest h = ground (arith, elements-name s rest)

pub elements-last : (s : Bytes) → HasNoSlash s → elements s ≡ s ∷ []
unfolding elements longer
elements-last [] h = refl
elements-last (c ∷ s) h = ground (arith, elements-last s)

-- The path that a stack of names stands for, read forward.
pub elements-stacked :
    (rs : List Bytes) (rest : Bytes)
    → All HasNoSlash rs
    → elements (reversed_onto (stacked rs []) rest) ≡ names_onto rs (elements rest)
unfolding stacked names_onto reversed_onto
elements-stacked [] rest h = refl
elements-stacked (r ∷ rs) rest h =
    ap elements (reversed_onto-append r (stacked rs []) (47 ∷ rest))
    ∙ ap (λ (x : Bytes). elements (reversed_onto (stacked rs []) x))
        (reversed_onto_split r (47 ∷ rest))
    ∙ elements-stacked rs (reversed_onto r [] ++ (47 ∷ rest)) h.1
    ∙ ap (names_onto rs)
        (elements-name (reversed_onto r []) rest (reversed_onto-HasNoSlash r [] h.0 tt))

pub stacked-append : (rs : List Bytes) (base : Bytes) → stacked rs base ≡ stacked rs [] ++ base
unfolding stacked
stacked-append [] base = refl
stacked-append (r ∷ rs) base =
    ap (λ (x : Bytes). 47 ∷ (r ++ x)) (stacked-append rs base)
    ∙ ap (47 ∷◌) (sym (append_assoc r (stacked rs []) base))

pub stacked-stacked :
    (rs ss : List Bytes) (base : Bytes) → stacked rs (stacked ss base) ≡ stacked (rs ++ ss) base
unfolding stacked
stacked-stacked [] ss base = refl
stacked-stacked (r ∷ rs) ss base = ap (λ (x : Bytes). 47 ∷ (r ++ x)) (stacked-stacked rs ss base)

-- Going back over a name stops at the slash before it, or at the start.
pub back_to-name :
    (start : ℕ) (r base : Bytes)
    → HasNoSlash r
    → start ≤ length base
    → back_to start base ≡ base
    → back_to start (r ++ base) ≡ base
unfolding back_to
back_to-name start [] base h le stays = stays
back_to-name start (c ∷ r) base h le stays =
    ground (arith, back_to-name start r base, length-append r base)

pub back_to-stacked :
    (rs : List Bytes) (base : Bytes) → back_to (length base) (stacked rs base) ≡ stacked rs base
unfolding back_to stacked
back_to-stacked [] [] = refl
back_to-stacked [] (c ∷ base) = ground arith
back_to-stacked (r ∷ rs) base = ground arith

pub length-stacked : (rs : List Bytes) (base : Bytes) → length base ≤ length (stacked rs base)
unfolding stacked
length-stacked [] base = omega arith
length-stacked (r ∷ rs) base =
    omega (arith, length-stacked rs base, length-append r (stacked rs base))

-- Copying takes a name and its slash, or the last name.
pub copy_component-some :
    (s out segment rest : Bytes)
    → find_slash s ≡ some (segment, rest)
    → copy_component s out ≡ (rest, 47 ∷ reversed_onto segment out)
unfolding find_slash copy_component reversed_onto
copy_component-some [] out segment rest h = cc
copy_component-some (c ∷ s) out segment rest h = elim (Option-cases (find_slash s)) [
  | inl last ↦ ground arith
  | inr ((seg, r), there) ↦ ground (arith, copy_component-some s (c ∷ out) seg r)
]

pub copy_component-none :
    (s out : Bytes) → find_slash s ≡ none → copy_component s out ≡ ([], reversed_onto s out)
unfolding find_slash copy_component reversed_onto
copy_component-none [] out h = refl
copy_component-none (c ∷ s) out h = ground (arith, copy_component-none s (c ∷ out))

pub find_slash-HasNoSlash :
    (s segment rest : Bytes) → find_slash s ≡ some (segment, rest) → HasNoSlash segment
unfolding find_slash
find_slash-HasNoSlash [] segment rest h = cc
find_slash-HasNoSlash (c ∷ s) segment rest h = elim (Option-cases (find_slash s)) [
  | inl last ↦ let e : [] ≡ segment = ground arith in subst HasNoSlash e tt
  | inr ((seg, r), there) ↦ elim (Bool-cases (c == 47)) [
    | inl cut ↦ let e : [] ≡ segment = ground arith in subst HasNoSlash e tt
    | inr other ↦
        let e : c ∷ seg ≡ segment = ground arith in
        let fresh : c ≢ 47 = ground arith in
        subst HasNoSlash e (fresh, find_slash-HasNoSlash s seg r there)
  ]
]

pub none-HasNoSlash : (s : Bytes) → find_slash s ≡ none → HasNoSlash s
unfolding find_slash
none-HasNoSlash [] h = tt
none-HasNoSlash (c ∷ s) h = ground (arith, none-HasNoSlash s)
