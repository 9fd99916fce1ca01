-- ===== src/Search/TagType/Names.antt =====
-- The names of the tag types.
use doka_one.Prelude.{some, ◌≡◌, refl}
use doka_one.Search.TagType.{TagType, text, as_str, from_str}

-- Every type is read back from its name.
pub from_str-as_str : (t : TagType) → from_str (as_str t) ≡ some t
unfolding from_str as_str
from_str-as_str text = refl
from_str-as_str _ = refl
