-- ===== src/Cli/Json.antt =====
-- JSON values as apps/cli/src/json-file.ts reads and merges them. The members of an object stand in
-- the order of `JSON.stringify`.
use crosscode.Prelude.{◌≡◌, refl, Bool, false, Option, none, some, arith, if◌then◌else◌}
use crosscode.Prelude.Text.{Text, same, same_iff, same_refl}

mutual
  pub data Json : Type 0 where
    null : Json
    boolean : Bool → Json
    number : Text → Json
    string : Text → Json
    array : Elements → Json
    object : Members → Json

  pub data Elements : Type 0 where
    nil : Elements
    element : Json → Elements → Elements

  pub data Members : Type 0 where
    end : Members
    field : Text → Json → Members → Members

-- `object[key]`
unfoldable pub get : Text → Members → Option Json
get k end = none
get k (field j v m) = if same j k then some v else get k m

-- `{ ...object, [key]: value }`: a key that is there keeps its place.
unfoldable pub put : Text → Json → Members → Members
put k v end = field k v end
put k v (field j w m) = if same j k then field j v m else field j w (put k v m)

-- `isObject(value) ? value : {}`
abbrev pub members_of : Option Json → Members
members_of (some (object m)) = m
members_of _ = end

-- `{ ...object, [section]: { ...servers, [name]: entry } }`, where `servers` is the section.
abbrev pub nest : Text → Text → Json → Members → Members
nest section name entry base =
    put section (object (put name entry (members_of (get section base)))) base

pub get-put :
    (j k : Text) (v : Json) (m : Members)
    → get j (put k v m) ≡ (if same k j then some v else get j m)
unfolding get put
get-put j k v end = refl
get-put j k v (field i w m) =
    ground (arith, same_iff i k, same_iff i j, same_iff k j, get-put j k v m)

pub put_lem : (k : Text) (v : Json) (m : Members) → get k m ≡ some v → put k v m ≡ m
unfolding get put
put_lem k v end h = ground arith
put_lem k v (field j w m) h = ground (arith, h, put_lem k v m)

-- An object in which `name` of `section` was set: nothing else in the section and nothing else in the
-- object has changed.
pub nest_keeps :
    (section name other : Text) (entry : Json) (base : Members)
    → same section other ≡ false
    → get other (nest section name entry base) ≡ get other base
nest_keeps section name other entry base apart =
    rw (get-put other section (object (put name entry (members_of (get section base)))) base, apart)
      refl

pub nest_section :
    (section name : Text) (entry : Json) (base : Members)
    → members_of (get section (nest section name entry base))
      ≡ put name entry (members_of (get section base))
nest_section section name entry base =
    rw
      (
        get-put section section (object (put name entry (members_of (get section base)))) base,
        same_refl section,
      )
      refl

pub get-nest :
    (section name key : Text) (entry : Json) (base : Members)
    → get key (members_of (get section (nest section name entry base)))
      ≡ (if same name key then some entry else get key (members_of (get section base)))
get-nest section name key entry base =
    rw (nest_section section name entry base)
      (get-put key name entry (members_of (get section base)))

-- An entry that is there is not added again.
pub nest_twice :
    (section name : Text) (entry : Json) (base : Members)
    → nest section name entry (nest section name entry base) ≡ nest section name entry base
nest_twice section name entry base =
    let servers = members_of (get section base) in
    let again : put name entry (put name entry servers) ≡ put name entry servers =
      put_lem name entry (put name entry servers)
        (rw (get-put name name entry servers, same_refl name) refl) in
    rw (nest_section section name entry base, again)
      (put_lem section (object (put name entry servers)) (nest section name entry base) (
        rw (get-put section section (object (put name entry servers)) base, same_refl section)
          refl))
