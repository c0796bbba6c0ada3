-- ===== src/Paths/Sanitize/Rounds.antt =====
-- util.c: a round of `sanitize_path` keeps what is written a stack of names with "..", where they are allowed,
-- at its bottom only.
use rsync_wrapper.Prelude.{
  ℕ, suc, ◌+◌, ◌-◌, ◌<◌, ◌≤◌, ◌≡◌, ◌≢◌, refl, sym, ap, ◌∙◌, arith, ◌==◌, if◌then◌else◌, Bool, true,
  false, not, ◌&&◌, ◌||◌,
}
use rsync_wrapper.Prelude.{
  Bytes, List, [], ◌∷◌, ◌++◌, length, drop, get_or, some, none, All, Option-cases, Bool-cases, inl,
  inr, ◌⊎◌, length-append, if_cases,
}
use rsync_wrapper.Paths.{find_slash, at_dot_dot}
use rsync_wrapper.Paths.Front.{
  HasNoNul, find_slash-Shorter, is_up, is_up-eq, at_dot_dot-some, at_dot_dot-none,
}
use rsync_wrapper.Paths.Sanitize.{
  San, reversed_onto, back_to, copied, backed_up, sanitize_round, at_dot,
}
use rsync_wrapper.Paths.Sanitize.Stack.{
  HasNoSlash, stacked, reversed_onto_split, reversed_onto_twice, reversed_onto-HasNoSlash,
  back_to-name, back_to-stacked, length-stacked, copy_component-some, copy_component-none,
  find_slash-HasNoSlash, none-HasNoSlash,
}

-- Names from their ends back: "..", and a name that is not "..".
abbrev pub IsUp : Bytes → Type 0
IsUp r = r ≡ 46 ∷ 46 ∷ []

abbrev pub IsLow : Bytes → Type 0
IsLow r = HasNoSlash r × (is_up (reversed_onto r []) ≡ false)

module _ (base : Bytes) (allowed : ℕ) where
  -- Between two rounds.
  pub record IsStacked (st : San) : Type 0 where
    pub highs : List Bytes
    pub ups : List Bytes
    pub written : st.out ≡ stacked highs (stacked ups base)
    pub bottom : st.start ≡ length (stacked ups base)
    pub all_up : All IsUp ups
    pub all_low : All IsLow highs
    pub count : length ups + st.depth ≡ allowed
    pub clean : HasNoNul st.path

  -- Behind the last name, which has no slash.
  pub data IsEnded (out : Bytes) : Type 0 where
    low_end :
        (last : Bytes) (highs ups : List Bytes)
        → out ≡ last ++ stacked highs (stacked ups base)
        → All IsUp ups
        → All IsLow highs
        → IsLow last
        → length ups ≤ allowed
        → IsEnded out
    up_end :
        (ups : List Bytes)
        → out ≡ (46 ∷ 46 ∷ []) ++ stacked ups base
        → All IsUp ups
        → suc (length ups) ≤ allowed
        → IsEnded out

  drop_one-HasNoNul : (s : Bytes) → HasNoNul s → HasNoNul (drop 1 s)
  drop_one-HasNoNul [] n = n
  drop_one-HasNoNul (c ∷ s) n = n.1

  drop_two-HasNoNul : (s : Bytes) → HasNoNul s → HasNoNul (drop 2 s)
  drop_two-HasNoNul [] n = n
  drop_two-HasNoNul (c ∷ []) n = n.1
  drop_two-HasNoNul (c ∷ d ∷ s) n = n.1.1

  -- The path moves on, and nothing is written.
  skipped-IsStacked : (st : San) → IsStacked st → IsStacked (record st { path = drop 1 st.path })
  skipped-IsStacked st h = record {
    highs = h.highs;
    ups = h.ups;
    written = h.written;
    bottom = h.bottom;
    all_up = h.all_up;
    all_low = h.all_low;
    count = h.count;
    clean = drop_one-HasNoNul st.path h.clean;
  }

  backed_up-IsStacked : (st : San) → IsStacked st → IsStacked (backed_up st)
  unfolding backed_up
  backed_up-IsStacked st h = elim (Bool-cases (length st.out == st.start)) [
    | inl level ↦ record {
      highs = h.highs;
      ups = h.ups;
      written = rw level h.written;
      bottom = h.bottom;
      all_up = h.all_up;
      all_low = h.all_low;
      count = h.count;
      clean = drop_two-HasNoNul st.path h.clean;
    }
    | inr above ↦ go h.highs h.written h.all_low above
  ]
    where
      go :
          (highs : List Bytes)
          → st.out ≡ stacked highs (stacked h.ups base)
          → All IsLow highs
          → (length st.out == st.start) ≡ false
          → IsStacked (record st {
            path = drop 2 st.path;
            out = (if length st.out == st.start then st.out else back_to st.start (drop 1 st.out));
          })
      go [] e low above =
          let level : length st.out ≡ st.start = unfold stacked in ap length e ∙ sym h.bottom in
          absurd (ground arith)
      go (r ∷ rs) e low above = record {
        highs = rs;
        ups = h.ups;
        written =
            (let rest : drop 1 st.out ≡ r ++ stacked rs (stacked h.ups base) =
                unfold stacked in ap (drop 1) e in
              rw (above, rest, h.bottom)
                (back_to-name (length (stacked h.ups base)) r (stacked rs (stacked h.ups base))
                  low.0.0 (length-stacked rs (stacked h.ups base))
                  (back_to-stacked rs (stacked h.ups base))));
        bottom = h.bottom;
        all_up = h.all_up;
        all_low = low.1;
        count = h.count;
        clean = drop_two-HasNoNul st.path h.clean;
      }

  -- A name with its slash, which is not "..", goes on top.
  copied-low :
      (st : San) (segment rest : Bytes)
      → IsStacked st
      → find_slash st.path ≡ some (segment, rest)
      → is_up segment ≡ false
      → IsStacked (copied st) × (length (copied st).path < length st.path)
  unfolding copied
  copied-low st segment rest h there low =
      let shorter = find_slash-Shorter st.path segment rest h.clean there in
      let twice : reversed_onto (reversed_onto segment []) [] ≡ segment =
        unfold reversed_onto in reversed_onto_twice segment [] in
      rw (copy_component-some st.path st.out segment rest there) (
        record {
          highs = reversed_onto segment [] ∷ h.highs;
          ups = h.ups;
          written =
              unfold stacked in
              ap (47 ∷◌) (
                reversed_onto_split segment st.out
                ∙ ap (λ (x : Bytes). reversed_onto segment [] ++ x) h.written);
          bottom = h.bottom;
          all_up = h.all_up;
          all_low = (
            (
              reversed_onto-HasNoSlash segment [] (find_slash-HasNoSlash st.path segment rest there)
                  tt,
              rw twice low,
            ),
            h.all_low,
          );
          count = h.count;
          clean = shorter.clean;
        },
        shorter.less,
      )

  -- The last name, which is not "..".
  copied-low_end :
      (st : San)
      → IsStacked st
      → find_slash st.path ≡ none
      → is_up st.path ≡ false
      → ((copied st).path ≡ []) × IsEnded (copied st).out
  unfolding copied
  copied-low_end st h last low =
      let twice : reversed_onto (reversed_onto st.path []) [] ≡ st.path =
        unfold reversed_onto in reversed_onto_twice st.path [] in
      rw (copy_component-none st.path st.out last) (
        refl,
        low_end (reversed_onto st.path []) h.highs h.ups
            (reversed_onto_split st.path st.out
              ∙ ap (λ (x : Bytes). reversed_onto st.path [] ++ x) h.written)
            h.all_up h.all_low
            (reversed_onto-HasNoSlash st.path [] (none-HasNoSlash st.path last) tt, rw twice low)
            (omega (arith, h.count)),
      )

  -- At the bottom there is no name yet but "..".
  at_bottom :
      (st : San)
      → IsStacked st
      → length st.out ≡ st.start
      → (ups : List Bytes) × (st.out ≡ stacked ups base)
        × All IsUp ups
        × (length ups + st.depth ≡ allowed)
  at_bottom st h level = go h.highs h.written
    where
      go :
          (highs : List Bytes)
          → st.out ≡ stacked highs (stacked h.ups base)
          → (ups : List Bytes) × (st.out ≡ stacked ups base)
            × All IsUp ups
            × (length ups + st.depth ≡ allowed)
      go [] e = (h.ups, unfold stacked in e, h.all_up, h.count)
      go (r ∷ rs) e = absurd (
          unfold stacked in
          omega (
            arith,
            level,
            h.bottom,
            ap length e,
            length-append r (stacked rs (stacked h.ups base)),
            length-stacked rs (stacked h.ups base),
          ))

  lowered : San → San
  lowered st = record st { depth = st.depth - 1; start = length st.out + 3 }

  -- ".." with its slash, where it is allowed.
  copied-up :
      (st : San) (segment rest : Bytes)
      → IsStacked st
      → length st.out ≡ st.start
      → 0 < st.depth
      → find_slash st.path ≡ some (segment, rest)
      → is_up segment ≡ true
      → IsStacked (copied (lowered st)) × (length (copied (lowered st)).path < length st.path)
  unfolding copied lowered
  copied-up st segment rest h level pos there up =
      let shorter = find_slash-Shorter st.path segment rest h.clean there in
      let (ups, written, all_up, count) = at_bottom st h level in
      let dots : segment ≡ 46 ∷ 46 ∷ [] = is_up-eq segment up in
      rw (copy_component-some st.path st.out segment rest there, dots)
        (
          record {
            highs = [];
            ups = (46 ∷ 46 ∷ []) ∷ ups;
            written = unfold stacked reversed_onto in ap (λ (x : Bytes). 47 ∷ 46 ∷ 46 ∷ x) written;
            bottom = unfold stacked in omega (arith, ap length written);
            all_up = (refl, all_up);
            all_low = tt;
            count = omega (arith, count);
            clean = shorter.clean;
          },
          shorter.less,
        )

  copied-up_end :
      (st : San)
      → IsStacked st
      → length st.out ≡ st.start
      → 0 < st.depth
      → find_slash st.path ≡ none
      → is_up st.path ≡ true
      → ((copied (lowered st)).path ≡ []) × IsEnded (copied (lowered st)).out
  unfolding copied lowered
  copied-up_end st h level pos last up =
      let (ups, written, all_up, count) = at_bottom st h level in
      let dots : st.path ≡ 46 ∷ 46 ∷ [] = is_up-eq st.path up in
      rw (copy_component-none st.path st.out last) (
        refl,
        up_end ups
            (ap (λ (x : Bytes). reversed_onto x st.out) dots
              ∙ (unfold reversed_onto in ap (λ (x : Bytes). 46 ∷ 46 ∷ x) written))
            all_up (omega (arith, count)),
      )

  -- What a round leaves: a stack and a shorter path, or the end.
  unfoldable pub RoundEnds : San → San → Type 0
  RoundEnds st st' =
      (IsStacked st' × (length st'.path < length st.path)) ⊎ ((st'.path ≡ []) × IsEnded st'.out)

  copied-RoundEnds :
      (st : San)
      → IsStacked st
      → get_or st.path 0 0 ≢ 47
      → at_dot_dot st.path ≡ false
      → RoundEnds st (copied st)
  unfolding RoundEnds
  copied-RoundEnds st h front low = elim (Option-cases (find_slash st.path)) [
    | inl last ↦ inr (copied-low_end st h last (sym (at_dot_dot-none st.path h.clean last) ∙ low))
    | inr ((segment, rest), there) ↦ inl (
        copied-low st segment rest h there
          (sym (at_dot_dot-some st.path segment rest h.clean front there) ∙ low))
  ]

  lowered-RoundEnds :
      (st : San)
      → IsStacked st
      → get_or st.path 0 0 ≢ 47
      → length st.out ≡ st.start
      → 0 < st.depth
      → at_dot_dot st.path ≡ true
      → RoundEnds st (copied (lowered st))
  unfolding RoundEnds
  lowered-RoundEnds st h front level pos up = elim (Option-cases (find_slash st.path)) [
    | inl last ↦
        inr (copied-up_end st h level pos last (sym (at_dot_dot-none st.path h.clean last) ∙ up))
    | inr ((segment, rest), there) ↦ inl (
        copied-up st segment rest h level pos there
          (sym (at_dot_dot-some st.path segment rest h.clean front there) ∙ up))
  ]

  drop-shorter : (s : Bytes) → 0 < length s → length (drop 1 s) < length s
  drop-shorter [] h = h
  drop-shorter (c ∷ s) h = omega arith

  drop_two-shorter : (s : Bytes) → 0 < length s → length (drop 2 s) < length s
  drop_two-shorter [] h = h
  drop_two-shorter (c ∷ []) h = omega arith
  drop_two-shorter (c ∷ d ∷ s) h = omega arith

  pub sanitize_round-RoundEnds :
      (drop_dot_dirs : Bool) (st : San)
      → IsStacked st
      → 0 < length st.path
      → RoundEnds st (sanitize_round drop_dot_dirs st)
  unfolding sanitize_round lowered
  sanitize_round-RoundEnds drop_dot_dirs st h some_left =
      if_cases (RoundEnds st) (get_or st.path 0 0 == 47) _ _ (λ e. skipped)
        (λ front.
          if_cases (RoundEnds st) (drop_dot_dirs && at_dot st.path) _ _ (λ e. skipped)
            (λ e.
              if_cases (RoundEnds st)
                (at_dot_dot st.path && (st.depth == 0 || not (length st.out == st.start))) _ _
                (λ e'. back)
                (λ stay.
                  if_cases (RoundEnds st) (at_dot_dot st.path) _ _
                    (λ up.
                      lowered-RoundEnds st h (ground arith) (ground (arith, up, stay))
                        (ground (arith, up, stay)) up)
                    (λ low. copied-RoundEnds st h (ground arith) low))))
    where
      skipped : RoundEnds st (record st { path = drop 1 st.path })
      skipped = unfold RoundEnds in inl (skipped-IsStacked st h, drop-shorter st.path some_left)

      back : RoundEnds st (backed_up st)
      back =
          unfold RoundEnds in
          inl (backed_up-IsStacked st h, unfold backed_up in drop_two-shorter st.path some_left)
