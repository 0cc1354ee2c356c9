-- ===== src/Domain/Id.antt =====
-- libs/domain/include/radahn/domain/id.hpp: identifiers, told apart by a tag.
use radahn.Common.{Str, is_empty, str_eq, Bool, ok, throw_if, ◌>>◌}
use radahn.Domain.Error.{Outcome, id_empty}

pub data Tag : Type 0 where
  job attempt worker experiment : Tag

pub record StrongId (t : Tag) : Type 0 where
  pub value : Str

abbrev pub JobId : Type 0
JobId = StrongId job

abbrev pub WorkerId : Type 0
WorkerId = StrongId worker

unfoldable pub make_id : (t : Tag) → Str → Outcome (StrongId t)
make_id t value = do throw_if (is_empty value) id_empty; ok (record { value = value })

-- `==` of identifiers compares their texts.
abbrev pub id_eq : {t : Tag} → StrongId t → StrongId t → Bool
id_eq a b = str_eq a.value b.value
