-- ===== src/Tests/Paths.antt =====
-- Paths into a record (internal/recordpath/path.go) at concrete records.
use cannectors.Prelude.{◌≡◌, refl, none, some, codes}
use cannectors.Value.{text, array, nil, cons, Fields, end, field}
use cannectors.RecordPath.Access
use cannectors.RecordPath.Segment.{split, root}
use cannectors.RecordPath.RoundTrip.{get-set}
use cannectors.RecordPath.Deletion.{get-delete}

-- {"name": "Ada", "tags": ["x"]}
abbrev person : Fields
person =
    field (codes "name") (text (codes "Ada"))
      (field (codes "tags") (array (cons (text (codes "x")) nil)) end)

get-set_example :
    Access.get
      (Access.set person (codes "address.lines[1].street") (text (codes "Main"))).0
      (codes "address.lines[1].street")
    ≡ some (text (codes "Main"))
unfolding Access.set split Access.descend cannectors.RecordPath.Segment.parse_part Access.assign
get-set_example = get-set person (codes "address.lines[1].street") (text (codes "Main")) refl

get-delete_example :
    Access.get (Access.delete person (codes "tags[0].name")) (codes "tags[0].name") ≡ none
unfolding split cannectors.RecordPath.Segment.index
get-delete_example = get-delete person (codes "tags[0].name") refl
