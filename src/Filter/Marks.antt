-- ===== src/Filter/Marks.antt =====
-- exclude.c: the modifiers of a rule, as `get_rule_prefix` writes them and `parse_rule_tok` reads them.
use rsync_wrapper.Prelude.{
  ℕ, ◌≡◌, refl, sym, ap, ◌∙◌, arith, ◌==◌, if◌then◌else◌, Bool, true, false, ◌||◌, Bool-cases, inl,
  inr, ◌⊎◌, append_assoc, append-nil,
}
use rsync_wrapper.Prelude.{Bytes, [], ◌∷◌, ◌++◌, some, ok}
use rsync_wrapper.Filter.{Flags}
use rsync_wrapper.Filter.Parse.{no_flags, modifier, modifiers}
use rsync_wrapper.Filter.Prefix.{mark, merge_marks}

-- The flags of a rule of a list, as parsing makes them: a rule that merges is a per-directory merge, has no
-- negation, and includes by its prefixes only; the other rules have no flags for merging but those of 'C'.
pub record IsParsed (f : Flags) : Type 0 where
  pub merges : f.merge_file ≡ f.perdir_merge
  pub no_negation : f.perdir_merge ≡ true → f.negate ≡ false
  pub includes :
      f.perdir_merge ≡ true → f.include ≡ true → (f.no_prefixes ≡ true) × (f.cvs_ignore ≡ false)
  pub no_merge : f.perdir_merge ≡ false → f.exclude_self ≡ false
  pub plain :
      f.perdir_merge ≡ false
      → (f.no_inherit ≡ f.cvs_ignore)
        × (f.word_split ≡ f.cvs_ignore)
        × (f.no_prefixes ≡ f.cvs_ignore)
  pub cvs :
      f.cvs_ignore ≡ true → (f.no_inherit ≡ true) × (f.word_split ≡ true) × (f.no_prefixes ≡ true)

-- The flags that the text carries. The others are those of the pattern.
unfoldable pub carried : Flags → Flags
carried f = record f {
  wild = false;
  wild2 = false;
  wild2_prefix = false;
  wild3_suffix = false;
  directory = false;
  finish_setup = f.perdir_merge;
  clear_list = false;
}

-- A modifier is read.
step :
    (c : ℕ) (put : Bool → Flags → Flags) (b : Bool) (g : Flags) (x s : Bytes)
    → c == 32 || c == 95 ≡ false
    → (b ≡ true → modifier false c g ≡ some (put true g))
    → put false g ≡ g
    → modifiers false false g ((mark b c ++ x) ++ s) ≡ modifiers false false (put b g) (x ++ s)
unfolding modifiers mark
step c put true g x s other h e = rw (modifiers, other, h refl) refl
step c put false g x s other h e = ap (λ (y : Flags). modifiers false false y (x ++ s)) (sym e)

-- The same, with more behind it.
step_in :
    (c : ℕ) (put : Bool → Flags → Flags) (b : Bool) (g : Flags) (y x s : Bytes)
    → c == 32 || c == 95 ≡ false
    → (b ≡ true → modifier false c g ≡ some (put true g))
    → put false g ≡ g
    → modifiers false false g (((mark b c ++ y) ++ x) ++ s)
      ≡ modifiers false false (put b g) ((y ++ x) ++ s)
step_in c put b g y x s other h e =
    ap (λ z. modifiers false false g (z ++ s)) (append_assoc (mark b c) y x)
    ∙ step c put b g (y ++ x) s other h e

-- The modifiers that are always sent.
unfoldable pub all_marks : Flags → Bytes
unfolding mark merge_marks
all_marks f =
    mark f.abs_path 47
    ++ (mark f.negate 33
        ++ (merge_marks f
            ++ (mark f.exclude_self 101
                ++ (mark f.xattr 120 ++ (mark f.sender_side 115 ++ mark f.receiver_side 114)))))

module _ (f : Flags) (w : IsParsed f) where
  -- The flags when the first character is read, and after '/' and '!'.
  abbrev pub kind_flags : Flags
  kind_flags = record no_flags {
    perdir_merge = f.perdir_merge;
    finish_setup = f.perdir_merge;
    merge_file = f.perdir_merge;
    include = (if f.perdir_merge then false else f.include);
  }

  abbrev path_flags : Flags
  path_flags = record kind_flags { abs_path = f.abs_path; negate = f.negate }

  abbrev merge_flags : Flags
  merge_flags = record path_flags {
    no_inherit = f.no_inherit;
    word_split = f.word_split;
    no_prefixes = f.no_prefixes;
    include = f.include;
    cvs_ignore = f.cvs_ignore;
  }

  kept_include :
      f.cvs_ignore ≡ true ⊎ (f.perdir_merge ≡ false)
      → (if f.perdir_merge then false else f.include) ≡ f.include
  kept_include (inl cvs) = ground (arith, w.includes)
  kept_include (inr plain) = rw plain refl

  -- The prefix of a per-directory merge.
  prefix_read :
      (x s : Bytes)
      → f.cvs_ignore ≡ false
      → f.perdir_merge ≡ true
      → modifiers false false
          (record path_flags {
            include = false;
            no_inherit = f.no_inherit;
            word_split = f.word_split;
          })
          ((mark f.no_prefixes (if f.include then 43 else 45) ++ x) ++ s)
        ≡ modifiers false false merge_flags (x ++ s)
  unfolding modifiers modifier mark
  prefix_read x s other merges = elim (Bool-cases f.include) [
    | inl include ↦ rw (other, merges, include, (w.includes merges include).0) refl
    | inr exclude ↦ elim (Bool-cases f.no_prefixes) [
      | inl prefixes ↦ rw (other, merges, exclude, prefixes) refl
      | inr nothing ↦ rw (other, merges, exclude, nothing) refl
    ]
  ]

  -- 'n', 'w' and the prefix of a per-directory merge.
  merging :
      (x s : Bytes)
      → f.cvs_ignore ≡ false
      → f.perdir_merge ≡ true
      → modifiers false false path_flags ((merge_marks f ++ x) ++ s)
        ≡ modifiers false false merge_flags (x ++ s)
  unfolding merge_marks modifiers modifier mark
  merging x s other merges =
      let prefixes = mark f.no_prefixes (if f.include then 43 else 45) in
      let g : Flags = record path_flags { include = false } in
      let h : Flags = record g { no_inherit = f.no_inherit } in
      let start : modifiers false false path_flags ((merge_marks f ++ x) ++ s)
          ≡ modifiers false false g
              (((mark f.no_inherit 110 ++ (mark f.word_split 119 ++ prefixes)) ++ x) ++ s) =
        rw (other, merges) refl in
      start
      ∙ step_in 110 (λ b y. record y { no_inherit = b }) f.no_inherit g
          (mark f.word_split 119 ++ prefixes) x s refl (λ e. rw merges refl) refl
      ∙ step_in 119 (λ b y. record y { word_split = b }) f.word_split h prefixes x s refl
          (λ e. rw merges refl) refl
      ∙ prefix_read x s other merges

  merge_marks_lem :
      (x s : Bytes)
      → modifiers false false path_flags ((merge_marks f ++ x) ++ s)
        ≡ modifiers false false merge_flags (x ++ s)
  unfolding merge_marks modifiers modifier mark
  merge_marks_lem x s = elim (Bool-cases f.cvs_ignore) [
    | inl cvs ↦
        let (inherits, words, prefixes) = w.cvs cvs in
        rw (kept_include (inl cvs), cvs, inherits, words, prefixes) refl
    | inr other ↦ elim (Bool-cases f.perdir_merge) [
      | inl merges ↦ merging x s other merges
      | inr plain ↦
          let (inherits, words, prefixes) = w.plain plain in
          rw (kept_include (inr plain), inherits, words, prefixes, other, plain) refl
    ]
  ]

  abbrev sides_flags : Flags
  sides_flags = record merge_flags {
    exclude_self = f.exclude_self;
    xattr = f.xattr;
    sender_side = f.sender_side;
  }

  merges_where :
      (b : Bool) → b ≡ true → (f.perdir_merge ≡ false → b ≡ false) → f.perdir_merge ≡ true
  merges_where b e h = ground arith

  plain_where : f.negate ≡ true → f.perdir_merge ≡ false
  plain_where e = ground (arith, w.no_negation)

  pub all_marks_lem :
      (s : Bytes)
      → modifiers false false kind_flags ((all_marks f ++ mark f.perishable 112) ++ (32 ∷ s))
        ≡ ok (carried f, s)
  unfolding modifiers modifier carried all_marks
  all_marks_lem s =
      let p = mark f.perishable 112 in
      let sides : Bytes = mark f.sender_side 115 ++ mark f.receiver_side 114 in
      let tail : Bytes = mark f.exclude_self 101 ++ (mark f.xattr 120 ++ sides) in
      step_in 47 (λ b y. record y { abs_path = b }) f.abs_path kind_flags
        (mark f.negate 33 ++ (merge_marks f ++ tail)) p (32 ∷ s) refl (λ e. refl) refl
      ∙ step_in 33 (λ b y. record y { negate = b }) f.negate
          (record kind_flags { abs_path = f.abs_path }) (merge_marks f ++ tail) p (32 ∷ s) refl
          (λ e. rw (plain_where e) refl) refl
      ∙ ap (λ z. modifiers false false path_flags (z ++ (32 ∷ s)))
          (append_assoc (merge_marks f) tail p)
      ∙ merge_marks_lem (tail ++ p) (32 ∷ s)
      ∙ step_in 101 (λ b y. record y { exclude_self = b }) f.exclude_self merge_flags
          (mark f.xattr 120 ++ sides) p (32 ∷ s) refl
          (λ e. rw (merges_where f.exclude_self e w.no_merge) refl) refl
      ∙ step_in 120 (λ b y. record y { xattr = b }) f.xattr
          (record merge_flags { exclude_self = f.exclude_self }) sides p (32 ∷ s) refl (λ e. refl)
          refl
      ∙ step_in 115 (λ b y. record y { sender_side = b }) f.sender_side
          (record merge_flags { exclude_self = f.exclude_self; xattr = f.xattr })
          (mark f.receiver_side 114) p (32 ∷ s) refl (λ e. refl) refl
      ∙ step 114 (λ b y. record y { receiver_side = b }) f.receiver_side sides_flags p (32 ∷ s) refl
          (λ e. refl) refl
      ∙ ap
          (λ z.
            modifiers false false (record sides_flags { receiver_side = f.receiver_side })
              (z ++ (32 ∷ s)))
          (sym (append-nil p))
      ∙ step 112 (λ b y. record y { perishable = b }) f.perishable
          (record sides_flags { receiver_side = f.receiver_side }) [] (32 ∷ s) refl (λ e. refl) refl
      ∙ rw w.merges refl
