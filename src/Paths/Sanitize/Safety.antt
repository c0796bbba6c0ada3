-- ===== src/Paths/Sanitize/Safety.antt =====
-- util.c: the path that `sanitize_path` makes does not lead above the top.
use rsync_wrapper.Prelude.{
  ℕ, zero, suc, ◌+◌, ◌-◌, ◌<◌, ◌≤◌, ◌≡◌, refl, sym, ap, ◌∙◌, arith, ◌==◌, if◌then◌else◌, Bool, true,
  false, not, ◌||◌,
}
use rsync_wrapper.Prelude.{
  Bytes, List, [], ◌∷◌, ◌++◌, length, drop, some, ok, All, if_cases, Bool-cases, inl, inr,
  append_assoc, append-nil,
}
use rsync_wrapper.Paths.Elements.{longer, elements, stays_inside, way}
use rsync_wrapper.Paths.Front.{HasNoNul, is_up}
use rsync_wrapper.Paths.Sanitize.{
  San, Target, reversed_onto, skip_dot_dirs, sanitize_round, sanitize_loop, sanitize_from,
  root_prefix, is_absolute, too_long, sanitize_path,
}
use rsync_wrapper.Paths.Sanitize.Stack.{
  HasNoSlash, stacked, names_onto, reversed_onto-append, reversed_onto_split, reversed_onto_twice,
  reversed_onto-HasNoSlash, elements-last, elements-stacked, stacked-append, stacked-stacked,
}
use rsync_wrapper.Paths.Sanitize.Rounds.{
  IsUp, IsLow, IsStacked, IsEnded, low_end, up_end, RoundEnds, sanitize_round-RoundEnds,
}

-- A path whose names are at most `depth` times "..", and then none that is "..".
pub record IsBelow (depth : ℕ) (path : Bytes) : Type 0 where
  pub ups : List Bytes
  pub lows : List Bytes
  pub names : elements path ≡ ups ++ lows
  pub all_up : All (λ e. e ≡ 46 ∷ 46 ∷ []) ups
  pub few : length ups ≤ depth
  pub none_up : All (λ e. is_up e ≡ false) lows

stays_inside-lows :
    (depth : ℕ) (lows : List Bytes)
    → All (λ e. is_up e ≡ false) lows
    → stays_inside depth lows ≡ true
unfolding stays_inside is_up
stays_inside-lows depth [] h = refl
stays_inside-lows depth (e ∷ lows) h =
    ground (arith, stays_inside-lows depth lows, stays_inside-lows (depth + 1) lows)

stays_inside_up :
    (depth : ℕ) (es : List Bytes)
    → 0 < depth
    → stays_inside depth ((46 ∷ 46 ∷ []) ∷ es) ≡ stays_inside (depth - 1) es
unfolding stays_inside
stays_inside_up depth es h = ground arith

stays_inside-ups :
    (depth : ℕ) (ups lows : List Bytes)
    → All (λ e. e ≡ 46 ∷ 46 ∷ []) ups
    → length ups ≤ depth
    → All (λ e. is_up e ≡ false) lows
    → stays_inside depth (ups ++ lows) ≡ true
stays_inside-ups depth [] lows u l h = stays_inside-lows depth lows h
stays_inside-ups depth (e ∷ ups) lows u l h = rw u.0 (
    stays_inside_up depth (ups ++ lows) (omega arith)
    ∙ stays_inside-ups (depth - 1) ups lows u.1 (omega arith) h)

-- Such a path leads at most `depth` levels up.
pub IsBelow-stays_inside :
    (depth : ℕ) (path : Bytes) → IsBelow depth path → stays_inside depth (elements path) ≡ true
IsBelow-stays_inside depth path b =
    rw b.names (stays_inside-ups depth b.ups b.lows b.all_up b.few b.none_up)

names_onto_split : (rs more : List Bytes) → names_onto rs more ≡ names_onto rs [] ++ more
unfolding names_onto
names_onto_split [] more = refl
names_onto_split (r ∷ rs) more =
    names_onto_split rs (reversed_onto r [] ∷ more)
    ∙ sym (append_assoc (names_onto rs []) (reversed_onto r [] ∷ []) more)
    ∙ ap (λ (x : List Bytes). x ++ more) (sym (names_onto_split rs (reversed_onto r [] ∷ [])))

up_reversed : (r : Bytes) → IsUp r → reversed_onto r [] ≡ 46 ∷ 46 ∷ []
unfolding reversed_onto
up_reversed r u = ap (λ (x : Bytes). reversed_onto x []) u

names_onto-up :
    (rs more : List Bytes)
    → All IsUp rs
    → All (λ e. e ≡ 46 ∷ 46 ∷ []) more
    → All (λ e. e ≡ 46 ∷ 46 ∷ []) (names_onto rs more)
      × (length (names_onto rs more) ≡ length rs + length more)
unfolding names_onto
names_onto-up [] more u m = (m, omega arith)
names_onto-up (r ∷ rs) more u m =
    let (ups, count) = names_onto-up rs (reversed_onto r [] ∷ more) u.1 (up_reversed r u.0, m) in
    (ups, omega (arith, count))

names_onto-low :
    (rs more : List Bytes)
    → All IsLow rs
    → All (λ e. is_up e ≡ false) more
    → All (λ e. is_up e ≡ false) (names_onto rs more)
unfolding names_onto
names_onto-low [] more u m = m
names_onto-low (r ∷ rs) more u m = names_onto-low rs (reversed_onto r [] ∷ more) u.1 (u.0.1, m)

names_onto-append :
    (rs ss more : List Bytes) → names_onto (rs ++ ss) more ≡ names_onto ss (names_onto rs more)
unfolding names_onto
names_onto-append [] ss more = refl
names_onto-append (r ∷ rs) ss more = names_onto-append rs ss (reversed_onto r [] ∷ more)

module _ (prefix : Bytes) (allowed : ℕ) where
  -- What is written, read forward: the prefix, and the names with the last one behind them.
  forward :
      (rs : List Bytes) (last out : Bytes)
      → out ≡ last ++ stacked rs (reversed_onto prefix [])
      → reversed_onto out [] ≡ prefix ++ reversed_onto (stacked rs []) (reversed_onto last [])
  forward rs last out e =
      ap (λ (x : Bytes). reversed_onto x [])
        (e ∙ ap (λ (x : Bytes). last ++ x) (stacked-append rs (reversed_onto prefix [])))
      ∙ reversed_onto-append last (stacked rs [] ++ reversed_onto prefix []) []
      ∙ reversed_onto-append (stacked rs []) (reversed_onto prefix []) (reversed_onto last [])
      ∙ reversed_onto_split (reversed_onto prefix [])
          (reversed_onto (stacked rs []) (reversed_onto last []))
      ∙ ap (λ (x : Bytes). x ++ reversed_onto (stacked rs []) (reversed_onto last []))
          (unfold reversed_onto in reversed_onto_twice prefix [])

  forward_names :
      (rs : List Bytes) (last : Bytes)
      → All HasNoSlash rs
      → HasNoSlash last
      → elements (reversed_onto (stacked rs []) (reversed_onto last []))
        ≡ names_onto rs (reversed_onto last [] ∷ [])
  forward_names rs last h k =
      elements-stacked rs (reversed_onto last []) h
      ∙ ap (names_onto rs)
          (elements-last (reversed_onto last []) (reversed_onto-HasNoSlash last [] k tt))

  ups-HasNoSlash : (rs : List Bytes) → All IsUp rs → All HasNoSlash rs
  ups-HasNoSlash [] u = tt
  ups-HasNoSlash (r ∷ rs) u = (rw u.0 (omega arith), ups-HasNoSlash rs u.1)

  stack-HasNoSlash :
      (highs ups : List Bytes) → All IsLow highs → All IsUp ups → All HasNoSlash (highs ++ ups)
  stack-HasNoSlash [] ups l u = ups-HasNoSlash ups u
  stack-HasNoSlash (r ∷ highs) ups l u = (l.0.0, stack-HasNoSlash highs ups l.1 u)

  IsEnded-IsBelow :
      (out : Bytes)
      → IsEnded (reversed_onto prefix []) allowed out
      → (body : Bytes) × (reversed_onto out [] ≡ prefix ++ body) × IsBelow allowed body
  IsEnded-IsBelow out (low_end last highs ups e u l low few) =
      let (all_up, count) = names_onto-up ups [] u tt in
      (
        reversed_onto (stacked (highs ++ ups) []) (reversed_onto last []),
        forward (highs ++ ups) last out (
            e
            ∙ ap (λ (x : Bytes). last ++ x) (stacked-stacked highs ups (reversed_onto prefix []))),
        record {
          ups = names_onto ups [];
          lows = names_onto highs (reversed_onto last [] ∷ []);
          names =
              forward_names (highs ++ ups) last (stack-HasNoSlash highs ups l u) low.0
              ∙ names_onto-append highs ups (reversed_onto last [] ∷ [])
              ∙ names_onto_split ups (names_onto highs (reversed_onto last [] ∷ []));
          all_up = all_up;
          few = omega (arith, count);
          none_up = names_onto-low highs (reversed_onto last [] ∷ []) l (low.1, tt);
        },
      )
  IsEnded-IsBelow out (up_end ups e u few) =
      let dots : HasNoSlash (46 ∷ 46 ∷ []) = omega arith in
      let (all_up, count) = names_onto-up ups ((46 ∷ 46 ∷ []) ∷ []) u (refl, tt) in
      (
        reversed_onto (stacked ups []) (reversed_onto (46 ∷ 46 ∷ []) []),
        forward ups (46 ∷ 46 ∷ []) out e,
        record {
          ups = names_onto ups ((46 ∷ 46 ∷ []) ∷ []);
          lows = [];
          names =
              forward_names ups (46 ∷ 46 ∷ []) (ups-HasNoSlash ups u) dots
              ∙ ap (λ (x : Bytes). names_onto ups (x ∷ [])) (up_reversed (46 ∷ 46 ∷ []) refl)
              ∙ sym (append-nil (names_onto ups ((46 ∷ 46 ∷ []) ∷ [])));
          all_up = all_up;
          few = omega (arith, count);
          none_up = tt;
        },
      )

  IsStacked-IsEnded :
      (st : San)
      → IsStacked (reversed_onto prefix []) allowed st
      → IsEnded (reversed_onto prefix []) allowed st.out
  IsStacked-IsEnded st h =
      low_end [] h.highs h.ups h.written h.all_up h.all_low
        (tt, unfold is_up way reversed_onto in refl) (omega (arith, h.count))

  ended_loop :
      (fuel : ℕ) (d : Bool) (st : San) → 0 < fuel → st.path ≡ [] → sanitize_loop fuel d st ≡ ok st
  unfolding sanitize_loop
  ended_loop zero d st f e = absurd (omega arith)
  ended_loop (suc fuel) d st f e =
      let done : (length st.path == 0) ≡ true = ap (λ (p : Bytes). length p == 0) e in
      rw (sanitize_loop, done) refl

  sanitize_loop-IsEnded :
      (fuel : ℕ) (drop_dot_dirs : Bool) (st : San)
      → length st.path < fuel
      → IsStacked (reversed_onto prefix []) allowed st
      → (st' : San) × (sanitize_loop fuel drop_dot_dirs st ≡ ok st')
        × IsEnded (reversed_onto prefix []) allowed st'.out
  unfolding sanitize_loop RoundEnds
  sanitize_loop-IsEnded zero d st l h = absurd (omega arith)
  sanitize_loop-IsEnded (suc fuel) d st l h = elim (Bool-cases (length st.path == 0)) [
    | inl done ↦ (st, rw (sanitize_loop, done) refl, IsStacked-IsEnded st h)
    | inr more ↦
        elim (sanitize_round-RoundEnds (reversed_onto prefix []) allowed d st h (ground arith)) [
          | inl (h', less) ↦
              let (st', run, end) =
                sanitize_loop-IsEnded fuel d (sanitize_round d st) (omega arith) h' in
              (st', rw (sanitize_loop, more) run, end)
          | inr (gone, end) ↦ (
            sanitize_round d st,
            rw (sanitize_loop, more) (ended_loop fuel d (sanitize_round d st) (ground arith) gone),
            end,
          )
        ]
  ]

skip_dot_dirs-HasNoNul : (p : Bytes) → HasNoNul p → HasNoNul (skip_dot_dirs p)
unfolding skip_dot_dirs
skip_dot_dirs-HasNoNul [] n = n
skip_dot_dirs-HasNoNul (a ∷ []) n = n
skip_dot_dirs-HasNoNul (a ∷ b ∷ p) n = ground (arith, skip_dot_dirs-HasNoNul p)

length-reversed_onto : (s out : Bytes) → length (reversed_onto s out) ≡ length s + length out
unfolding reversed_onto
length-reversed_onto [] out = omega arith
length-reversed_onto (c ∷ s) out = omega (arith, length-reversed_onto s (c ∷ out))

-- An empty result becomes ".".
dot-IsBelow : (depth : ℕ) → IsBelow depth (46 ∷ [])
unfolding elements longer is_up way
dot-IsBelow depth = record {
  ups = [];
  lows = (46 ∷ []) ∷ [];
  names = refl;
  all_up = tt;
  few = omega arith;
  none_up = (refl, tt);
}

nothing_written :
    (prefix body out : Bytes) → length out ≡ 0 → reversed_onto out [] ≡ prefix ++ body → prefix ≡ []
unfolding reversed_onto
nothing_written [] body out l e = refl
nothing_written (c ∷ prefix) body out l e =
    absurd (omega (arith, length-reversed_onto out [], ap length e))

sanitize_from-IsBelow :
    (drop_dot_dirs : Bool) (prefix : Bytes) (depth : ℕ) (p : Bytes)
    → HasNoNul p
    → (body : Bytes) × (sanitize_from drop_dot_dirs prefix depth p ≡ ok (prefix ++ body))
      × IsBelow depth body
unfolding sanitize_from
sanitize_from-IsBelow drop_dot_dirs prefix depth p n =
    let path = (if drop_dot_dirs then skip_dot_dirs p else p) in
    let clean : HasNoNul path =
      if_cases HasNoNul drop_dot_dirs (skip_dot_dirs p) p (λ e. skip_dot_dirs-HasNoNul p n)
        (λ e. n) in
    let (st, run, end) =
      sanitize_loop-IsEnded prefix depth (length path + 1) drop_dot_dirs
        (record {
          out = reversed_onto prefix [];
          start = length prefix;
          depth = depth;
          path = path;
        })
        (omega arith)
        (record {
          highs = [];
          ups = [];
          written = unfold stacked in refl;
          bottom = unfold stacked in omega (arith, length-reversed_onto prefix []);
          all_up = tt;
          all_low = tt;
          count = omega arith;
          clean = clean;
        }) in
    let (body, text, below) = IsEnded-IsBelow prefix depth st.out end in
    elim (Bool-cases (length st.out == 0)) [
      | inl empty ↦
          let bare : prefix ≡ [] = nothing_written prefix body st.out (ground arith) text in
          (46 ∷ [], rw run (rw empty (rw bare refl)), dot-IsBelow depth)
      | inr full ↦ (body, rw run (rw full (ap ok text)), below)
    ]

drop_one-HasNoNul : (p : Bytes) → HasNoNul p → HasNoNul (drop 1 p)
drop_one-HasNoNul [] n = n
drop_one-HasNoNul (c ∷ p) n = n.1

-- For every path without a NUL, every root directory and every choice of the flags, `sanitize_path` ends. Unless
-- the path is too long for the buffer, it returns the root directory for an absolute path, nothing in its
-- place for another, and behind it a path of which at most the first `depth` names are "..": none behind a
-- root directory. So it never leads more than `depth` levels up.
pub sanitize_path-IsBelow :
    (target : Target) (relative_paths keep_dot_dirs : Bool) (root p : Bytes) (depth : ℕ)
    → HasNoNul p
    → too_long target (if is_absolute target p then root else []) p ≡ false
    → (body : Bytes) × (sanitize_path target relative_paths keep_dot_dirs root p depth
        ≡ ok (some (root_prefix (if is_absolute target p then root else []) ++ body)))
      × IsBelow (if is_absolute target p then 0 else depth) body
      × (stays_inside (if is_absolute target p then 0 else depth) (elements body) ≡ true)
unfolding sanitize_path
sanitize_path-IsBelow target relative_paths keep_dot_dirs root p depth n short =
    let path = (if is_absolute target p then drop 1 p else p) in
    let allowed = (if is_absolute target p then 0 else depth) in
    let clean : HasNoNul path =
      if_cases HasNoNul (is_absolute target p) (drop 1 p) p (λ e. drop_one-HasNoNul p n) (λ e. n) in
    let (body, run, below) =
      sanitize_from-IsBelow (not relative_paths || not keep_dot_dirs)
        (root_prefix (if is_absolute target p then root else [])) allowed path clean in
    (body, rw (short, run) refl, below, IsBelow-stays_inside allowed body below)
