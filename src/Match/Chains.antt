-- ===== src/Match/Chains.antt =====
-- match.c: the chains that `build_hash_table` links, and the search along them where the basis file is
-- not being updated.
use rsync_wrapper.Prelude.{
  ℕ, zero, suc, ◌+◌, ◌≤◌, ◌<◌, ◌≡◌, ◌≢◌, refl, arith, ◌==◌, true, false, ◌∙◌,
}
use rsync_wrapper.Prelude.{
  List, [], ◌∷◌, Option, none, some, get_elem?, length, ok, Bool-cases, inl, inr, Option-cases,
}
use mathlib.Core.Path.{subst}
use rsync_wrapper.Match.{SumBuf, SumStruct, sums_len}
use rsync_wrapper.Match.Table.{HashTable, store, slot_of, build_from, build_hash_table}
use rsync_wrapper.Match.Search.{
  Link, after, Chains, Window, Verdict, bypassed, differs, false_alarm, found, judge, walk,
  digest_eq,
}

-- An index below n, if there is one.
abbrev pub Below : ℕ → Option ℕ → Type 0
Below n none = Unit
Below n (some j) = j < n

-- From block i on, every chain leads to an earlier block.
abbrev pub Linked : ℕ → List SumBuf → Type 0
Linked i [] = Unit
Linked i (e ∷ sums) = Below i e.chain × Linked (suc i) sums

pub record IsChained (c : List SumBuf × HashTable) : Type 0 where
  pub linked : Linked 0 c.0
  pub slots : (h : ℕ) → Below (length c.0) (c.1 h)

-- Two entries that describe the same block.
pub record SameBlock (e e' : SumBuf) : Type 0 where
  pub len : e.len ≡ e'.len
  pub sum1 : e.sum1 ≡ e'.sum1
  pub sum2 : e.sum2 ≡ e'.sum2

Below-mono : (n m : ℕ) (o : Option ℕ) → n ≤ m → Below n o → Below m o
Below-mono n m none h b = tt
Below-mono n m (some j) h b = omega arith

store-Below :
    (i t : ℕ) (table : HashTable)
    → ((h : ℕ) → Below i (table h))
    → (h : ℕ) → Below (suc i) (store table t (some i) h)
unfolding store
store-Below i t table b h = elim (Bool-cases (h == t)) [
  | inl here ↦ rw here (omega arith)
  | inr other ↦ rw other (Below-mono i (suc i) (table h) (omega arith) (b h))
]

build_from-chained :
    (size i : ℕ) (sums : List SumBuf) (table : HashTable)
    → ((h : ℕ) → Below i (table h))
    → Linked i (build_from size i sums table).0
      × ((h : ℕ) → Below (i + length sums) ((build_from size i sums table).1 h))
      × (length (build_from size i sums table).0 ≡ length sums)
unfolding build_from
build_from-chained size i [] table b =
    (tt, λ h. Below-mono i (i + 0) (table h) (omega arith) (b h), refl)
build_from-chained size i (e ∷ sums) table b =
    let t = slot_of size e.sum1 in
    let next : i + 1 ≡ suc i = omega arith in
    let (linked, slots, len) =
      build_from-chained size (i + 1) sums (store table t (some i))
        (rw next (store-Below i t table b)) in
    ((b t, rw (← next) linked), λ h. Below-mono _ _ _ (omega arith) (slots h), omega (arith, len))

build_from-same :
    (size i : ℕ) (sums : List SumBuf) (table : HashTable) (k : ℕ) (e : SumBuf)
    → get_elem? (build_from size i sums table).0 k ≡ some e
    → (e' : SumBuf) × (get_elem? sums k ≡ some e') × SameBlock e e'
unfolding build_from
build_from-same size i [] table k e h = cc
build_from-same size i (x ∷ sums) table zero e h = (x, refl, ground arith)
build_from-same size i (x ∷ sums) table (suc k) e h =
    build_from-same size (i + 1) sums (store table (slot_of size x.sum1) (some i)) k e h

sums_len-build_from :
    (size i : ℕ) (sums : List SumBuf) (table : HashTable) (k : ℕ)
    → sums_len (build_from size i sums table).0 k ≡ sums_len sums k
unfolding build_from sums_len
sums_len-build_from size i [] table k = refl
sums_len-build_from size i (x ∷ sums) table zero = refl
sums_len-build_from size i (x ∷ sums) table (suc k) =
    sums_len-build_from size (i + 1) sums (store table (slot_of size x.sum1) (some i)) k

pub build_hash_table-IsChained : (s : SumStruct) → IsChained (build_hash_table s)
unfolding build_hash_table
build_hash_table-IsChained s =
    let (linked, slots, len) = build_from-chained _ 0 s.sums (λ t. none) (λ h. tt) in
    record { linked = linked; slots = λ h. Below-mono _ _ _ (omega (arith, len)) (slots h) }

pub build_hash_table-same :
    (s : SumStruct) (k : ℕ) (e : SumBuf)
    → get_elem? (build_hash_table s).0 k ≡ some e
    → (e' : SumBuf) × (get_elem? s.sums k ≡ some e') × SameBlock e e'
unfolding build_hash_table
build_hash_table-same s k e h = build_from-same _ 0 s.sums _ k e h

pub sums_len-build_hash_table :
    (s : SumStruct) (k : ℕ) → sums_len (build_hash_table s).0 k ≡ sums_len s.sums k
unfolding build_hash_table
sums_len-build_hash_table s k = sums_len-build_from _ 0 s.sums _ k

same_chain : (x e : SumBuf) → some x ≡ some e → x.chain ≡ e.chain
same_chain x e h = ground arith

pub Linked-get :
    (i : ℕ) (sums : List SumBuf) (k : ℕ) (e : SumBuf)
    → Linked i sums
    → get_elem? sums k ≡ some e
    → Below (i + k) e.chain
Linked-get i [] k e l h = cc
Linked-get i (x ∷ sums) zero e l h =
    Below-mono i (i + 0) e.chain (omega arith) (subst (λ o. Below i o) (same_chain x e h) l.0)
Linked-get i (x ∷ sums) (suc k) e l h =
    let next : i + suc k ≡ suc i + k = omega arith in rw next (Linked-get (suc i) sums k e l.1 h)

pub sums_len-get :
    (sums : List SumBuf) (k : ℕ) (e : SumBuf) → get_elem? sums k ≡ some e → sums_len sums k ≡ e.len
unfolding sums_len
sums_len-get [] k e h = cc
sums_len-get (x ∷ sums) zero e h = ground arith
sums_len-get (x ∷ sums) (suc k) e h = sums_len-get sums k e h

pub get-lt {ℓ} :
    {A : Type ℓ} (xs : List A) (k : ℕ) (a : A) → get_elem? xs k ≡ some a → k < length xs
get-lt [] k a h = cc
get-lt (x ∷ xs) zero a h = omega arith
get-lt (x ∷ xs) (suc k) a h = omega (arith, get-lt xs k a h)

-- A block that looks like the window.
pub record Fits (s2length : ℕ) (w : Window) (sums : List SumBuf) (i : ℕ) : Type 0 where
  pub entry : SumBuf
  pub there : get_elem? sums i ≡ some entry
  pub weak : w.sum ≡ entry.sum1
  pub length_fits : w.l ≡ entry.len
  pub strong : digest_eq s2length w.sum2 entry.sum2 ≡ true

abbrev pub HitFits : ℕ → Window → List SumBuf → Option ℕ → Type 0
HitFits s2length w sums none = Unit
HitFits s2length w sums (some i) = Fits s2length w sums i

judge_found :
    (s2length : ℕ) (w : Window) (e : SumBuf)
    → judge false s2length w e ≡ found
    → (w.sum ≡ e.sum1) × (w.l ≡ e.len) × (digest_eq s2length w.sum2 e.sum2 ≡ true)
unfolding judge
judge_found s2length w e h = (ground arith, ground arith, ground arith)

judge_not_bypassed : (s2length : ℕ) (w : Window) (e : SumBuf) → judge false s2length w e ≢ bypassed
unfolding judge
judge_not_bypassed s2length w e h = ground arith

-- The search as it goes when the basis file is not being updated: the lists stay, false alarms are
-- counted, and a block that is found fits the window.
pub record WalkEnds (s2length : ℕ) (w : Window) (fuel : ℕ) (o : Option ℕ) (prev : Link) (c : Chains)
    : Type 0 where
  pub hit : Option ℕ
  pub alarms : ℕ
  pub ends : walk false s2length w fuel o prev c ≡ ok (hit, record c { false_alarms = alarms })
  pub fits : HitFits s2length w c.sums hit

module _ (s2length : ℕ) (w : Window) (fuel i : ℕ) (prev : Link) (c : Chains) (entry : SumBuf)
    (there : get_elem? c.sums i ≡ some entry) where
  walk_differs :
      judge false s2length w entry ≡ differs
      → walk false s2length w (suc fuel) (some i) prev c
        ≡ walk false s2length w fuel entry.chain (after i) c
  unfolding walk
  walk_differs v = ground arith

  walk_false_alarm :
      judge false s2length w entry ≡ false_alarm
      → walk false s2length w (suc fuel) (some i) prev c
        ≡ walk false s2length w fuel entry.chain
            (after i)
            (record c { false_alarms = c.false_alarms + 1 })
  unfolding walk
  walk_false_alarm v = ground arith

  walk_found :
      judge false s2length w entry ≡ found
      → walk false s2length w (suc fuel) (some i) prev c ≡ ok (some i, c)
  unfolding walk
  walk_found v = ground arith

  walk_by_verdict :
      ((o : Option ℕ) (prev' : Link) (c' : Chains)
        → Linked 0 c'.sums
        → Below fuel o
        → WalkEnds s2length w fuel o prev' c')
      → Linked 0 c.sums
      → i < suc fuel
      → (v : Verdict) → judge false s2length w entry ≡ v
      → WalkEnds s2length w (suc fuel) (some i) prev c
  walk_by_verdict ih l h bypassed j = absurd (judge_not_bypassed s2length w entry j)
  walk_by_verdict ih l h differs j =
      let lower =
        Below-mono (0 + i) fuel entry.chain (omega arith) (Linked-get 0 c.sums i entry l there) in
      let r = ih entry.chain (after i) c l lower in
      record { hit = r.hit; alarms = r.alarms; ends = walk_differs j ∙ r.ends; fits = r.fits }
  walk_by_verdict ih l h false_alarm j =
      let lower =
        Below-mono (0 + i) fuel entry.chain (omega arith) (Linked-get 0 c.sums i entry l there) in
      let r = ih entry.chain (after i) (record c { false_alarms = c.false_alarms + 1 }) l lower in
      record { hit = r.hit; alarms = r.alarms; ends = walk_false_alarm j ∙ r.ends; fits = r.fits }
  walk_by_verdict ih l h found j =
      let (weak, len, strong) = judge_found s2length w entry j in
      record {
        hit = some i;
        alarms = c.false_alarms;
        ends = walk_found j;
        fits = record {
          entry = entry;
          there = there;
          weak = weak;
          length_fits = len;
          strong = strong;
        };
      }

walk_missing :
    (s2length : ℕ) (w : Window) (fuel i : ℕ) (prev : Link) (c : Chains)
    → get_elem? c.sums i ≡ none
    → walk false s2length w (suc fuel) (some i) prev c ≡ ok (none, c)
unfolding walk
walk_missing s2length w fuel i prev c h = ground arith

no_hit :
    {s2length : ℕ} {w : Window} {fuel : ℕ} {o : Option ℕ} {prev : Link} {c : Chains}
    → walk false s2length w fuel o prev c ≡ ok (none, c)
    → WalkEnds s2length w fuel o prev c
no_hit {c = c} e = record { hit = none; alarms = c.false_alarms; ends = e; fits = tt }

-- Where chains lead to smaller indices and the first index is below the number of rounds, the walk ends
-- without running out of them. It changes nothing but the count of false alarms, and a block that it finds
-- has the window's weak checksum, its length and its strong checksum. (Not updating in place.)
pub walk-ends :
    (fuel : ℕ) (s2length : ℕ) (w : Window) (o : Option ℕ) (prev : Link) (c : Chains)
    → Linked 0 c.sums
    → Below fuel o
    → WalkEnds s2length w fuel o prev c
walk-ends zero s2length w none prev c l b = no_hit (unfold walk in refl)
walk-ends (suc fuel) s2length w none prev c l b = no_hit (unfold walk in refl)
walk-ends zero s2length w (some i) prev c l b = absurd (omega arith)
walk-ends (suc fuel) s2length w (some i) prev c l b = elim (Option-cases (get_elem? c.sums i)) [
  | inl missing ↦ no_hit (walk_missing s2length w fuel i prev c missing)
  | inr (entry, there) ↦
      walk_by_verdict s2length w fuel i prev c entry there
        (λ o prev' c' l' b'. walk-ends fuel s2length w o prev' c' l' b') l b
        (judge false s2length w entry) refl
]
