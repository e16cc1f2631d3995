-- ===== src/Rpc/Versions.antt =====
-- The webrpc header of proto/quotacontrol.gen.go: `parseWebrpcGenVersions`. Error messages stand
-- without the text that was not understood.
use quotacontrol.Prelude.{
  is_empty, if◌then◌else◌, ◌≡◌, refl, ap, ◌∙◌, none, some, [], ◌∷◌, ◌++◌, arith,
}
use quotacontrol.Prelude.Text.{Text, codes}
use quotacontrol.Prelude.Split.{split, cut, Without, split_first, split_none, cut_first}
use quotacontrol.Proto.Errors.{plain, wrapped, Result, ok, err, panic}

pub record WebrpcGenVersions : Type 0 where
  pub webrpc_gen_version : Text
  pub code_gen_name : Text
  pub code_gen_version : Text
  pub schema_name : Text
  pub schema_version : Text

unfoldable pub parse_webrpc_gen_versions : Text → Result WebrpcGenVersions
parse_webrpc_gen_versions header = elim (split b';' header) [
  | (first ∷ second ∷ third ∷ rest) ↦ elim (cut b'@' first) [
    | none ↦ err (plain "webrpc gen version could not be parsed")
    | some (webrpc, webrpc_version) ↦ elim (cut b'@' second) [
      | none ↦ err (plain "tmplTarget and tmplVersion could not be parsed")
      | some (target, target_version) ↦ elim (cut b'@' third) [
        | none ↦ err (plain "schema name and schema version could not be parsed")
        | some (name, version) ↦ ok (record {
          webrpc_gen_version = webrpc_version;
          code_gen_name = target;
          code_gen_version = target_version;
          schema_name = name;
          schema_version = version;
        })
      ]
    ]
  ]
  | _ ↦ err (plain "expected at least 3 parts while parsing webrpc header")
]

-- `VersionFromHeader`, of the value of the webrpc header, which is empty where there is none.
unfoldable pub version_from_header : Text → Result WebrpcGenVersions
unfolding parse_webrpc_gen_versions
version_from_header header =
    if is_empty header
    then err (plain "header is empty or missing")
    else (elim (parse_webrpc_gen_versions header) [
      | ok v ↦ ok v
      | err e ↦ err (wrapped "webrpc header is invalid" e)
      | panic ↦ panic
    ])

-- A header in the form of `WebrpcHeaderValue`.
abbrev pub header_of : WebrpcGenVersions → Text
header_of v =
    (codes "webrpc@" ++ v.webrpc_gen_version)
    ++ b';'
      ∷ ((v.code_gen_name ++ b'@' ∷ v.code_gen_version)
          ++ b';' ∷ (v.schema_name ++ b'@' ∷ v.schema_version))

-- No part has a semicolon, and no name has an at sign.
pub record IsTame (v : WebrpcGenVersions) : Type 0 where
  pub webrpc_whole : Without b';' v.webrpc_gen_version
  pub code_gen_whole : Without b';' (v.code_gen_name ++ b'@' ∷ v.code_gen_version)
  pub schema_whole : Without b';' (v.schema_name ++ b'@' ∷ v.schema_version)
  pub code_gen_plain : Without b'@' v.code_gen_name
  pub schema_plain : Without b'@' v.schema_name

header_split :
    (v : WebrpcGenVersions)
    → IsTame v
    → split b';' (header_of v)
      ≡ (codes "webrpc@" ++ v.webrpc_gen_version)
        ∷ (v.code_gen_name ++ b'@' ∷ v.code_gen_version)
        ∷ (v.schema_name ++ b'@' ∷ v.schema_version)
        ∷ []
header_split v tame =
    let third = v.schema_name ++ b'@' ∷ v.schema_version in
    let second = v.code_gen_name ++ b'@' ∷ v.code_gen_version in
    split_first b';' (codes "webrpc@" ++ v.webrpc_gen_version) (second ++ b';' ∷ third)
      (refl, (refl, (refl, (refl, (refl, (refl, (refl, tame.webrpc_whole)))))))
    ∙ ap ((codes "webrpc@" ++ v.webrpc_gen_version) ∷◌) (
        split_first b';' second third tame.code_gen_whole
        ∙ ap (second ∷◌) (split_none b';' third tame.schema_whole))

-- For versions none of whose parts has a semicolon and none of whose names has an at sign: the
-- header that is written for them is parsed back to them.
pub parse_webrpc_gen_versions-header_of :
    (v : WebrpcGenVersions) → IsTame v → parse_webrpc_gen_versions (header_of v) ≡ ok v
unfolding parse_webrpc_gen_versions
parse_webrpc_gen_versions-header_of v tame = ground (
  arith,
  header_split v tame,
  cut_first b'@' (codes "webrpc") v.webrpc_gen_version
      (refl, (refl, (refl, (refl, (refl, (refl, tt)))))),
  cut_first b'@' v.code_gen_name v.code_gen_version tame.code_gen_plain,
  cut_first b'@' v.schema_name v.schema_version tame.schema_plain,
)

-- For versions none of whose parts has a semicolon and none of whose names has an at sign: the
-- header that is written for them is read back as them.
pub version_from_header-header_of :
    (v : WebrpcGenVersions) → IsTame v → version_from_header (header_of v) ≡ ok v
unfolding version_from_header
version_from_header-header_of v tame = ground (arith, parse_webrpc_gen_versions-header_of v tame)
