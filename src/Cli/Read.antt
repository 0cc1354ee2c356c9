-- ===== src/Cli/Read.antt =====
-- How the client's options combine.
use mathlib.Core.List.{append-nil, append_assoc}
use radahn.Common.{
  str_eq, Bool, false, ℕ, ◌≡◌, ◌⊎◌, refl, ap, ◌∙◌, inl, inr, true, false, Option, List, [], ◌∷◌,
  ◌++◌, Str, arith, ℤ, ok, Result-cases,
}
use radahn.Cli.Parse.{
  Options, Flag, gpu, tag, max_attempts, unknown_flag, flag_of, tag_flag, gpu_flag,
  max_attempts_flag, parse_attempts, read_options, default_options,
}

pub flag_cases : (f : Flag) → (f ≡ gpu) ⊎ ((f ≡ tag) ⊎ ((f ≡ max_attempts) ⊎ (f ≡ unknown_flag)))
flag_cases gpu = inl refl
flag_cases tag = inr (inl refl)
flag_cases max_attempts = inr (inr (inl refl))
flag_cases unknown_flag = inr (inr (inr refl))

module _ (stol : Str → Option (ℤ × ℕ)) where
  -- Arguments that are read one part after the other are read as the whole list.
  pub read_options-append :
      (first second : List Str) (before between : Options)
      → read_options stol before first ≡ ok between
      → read_options stol before (first ++ second) ≡ read_options stol between second
  unfolding read_options
  read_options-append [] second before between h = ground arith
  read_options-append (a ∷ []) [] before between h = ground arith
  read_options-append (a ∷ []) (b ∷ second) before between h = elim (flag_cases (flag_of a)) [
    | inl e ↦ ground (arith, e)
    | inr (inl e) ↦ ground (arith, e)
    | inr (inr (inl e)) ↦ ground (arith, e)
    | inr (inr (inr e)) ↦ ground (arith, e)
  ]
  read_options-append (a ∷ b ∷ first) second before between h = elim (flag_cases (flag_of a)) [
    | inl e ↦ ground (
      arith,
      e,
      read_options-append (b ∷ first) second (record before { requires_gpu = true }) between,
    )
    | inr (inl e) ↦ ground (
      arith,
      e,
      read_options-append first second (record before { tags = before.tags ++ b ∷ [] }) between,
    )
    | inr (inr (inl e)) ↦ elim (Result-cases (parse_attempts stol b)) [
      | inl (n, p) ↦ ground (
        arith,
        e,
        p,
        read_options-append first second (record before { max_attempts = n }) between,
      )
      | inr (x, p) ↦ ground (arith, e, p)
    ]
    | inr (inr (inr e)) ↦ ground (arith, e)
  ]

abbrev pub gpu_arguments : Bool → List Str
gpu_arguments true = gpu_flag ∷ []
gpu_arguments false = []

abbrev pub tag_arguments : List Str → List Str
tag_arguments [] = []
tag_arguments (t ∷ tags) = tag_flag ∷ t ∷ tag_arguments tags

module _ (stol : Str → Option (ℤ × ℕ)) where
  read-tag_arguments :
      (tags : List Str) (before : Options)
      → read_options stol before (tag_arguments tags)
        ≡ ok (record before { tags = before.tags ++ tags })
  unfolding read_options flag_of str_eq
  read-tag_arguments [] before = ground (arith, append-nil before.tags)
  read-tag_arguments (t ∷ tags) before =
      read-tag_arguments tags (record before { tags = before.tags ++ t ∷ [] })
      ∙ ap (λ all. ok (record before { tags = all })) (append_assoc before.tags (t ∷ []) tags)

  read-gpu_arguments :
      (wanted : Bool) (before : Options)
      → before.requires_gpu ≡ false
      → read_options stol before (gpu_arguments wanted)
        ≡ ok (record before { requires_gpu = wanted })
  unfolding read_options flag_of str_eq
  read-gpu_arguments true before none_yet = refl
  read-gpu_arguments false before none_yet = ground arith

  read-attempts :
      (before : Options) (text : Str) (n : ℕ)
      → parse_attempts stol text ≡ ok n
      → read_options stol before (max_attempts_flag ∷ text ∷ [])
        ≡ ok (record before { max_attempts = n })
  unfolding read_options flag_of str_eq
  read-attempts before text n h = ground (arith, h)

  -- The arguments that choose a GPU or not, some tags and a number of attempts are read as
  -- exactly these options, the tags in their order.
  pub read_options-arguments :
      (options : Options) (text : Str)
      → parse_attempts stol text ≡ ok options.max_attempts
      → read_options stol default_options (
          gpu_arguments options.requires_gpu
          ++ (tag_arguments options.tags ++ max_attempts_flag ∷ text ∷ []))
        ≡ ok options
  read_options-arguments options text h =
      let gpu_read = read-gpu_arguments options.requires_gpu default_options refl in
      let with_gpu : Options = record default_options { requires_gpu = options.requires_gpu } in
      let tags_read = read-tag_arguments options.tags with_gpu in
      let with_tags : Options = record with_gpu { tags = options.tags } in
      read_options-append stol (gpu_arguments options.requires_gpu) _ default_options with_gpu
        gpu_read
      ∙ read_options-append stol (tag_arguments options.tags) _ with_gpu with_tags tags_read
      ∙ read-attempts with_tags text options.max_attempts h
