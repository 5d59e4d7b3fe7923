-- ===== src/Tests/World.antt =====
-- A file system in memory, for the examples: the contents of each file under its cleaned name.
use dalgo2ingitdb.Base.{
  String, ◌≡◌, eq_iff, eq_refl, refl, ap, ◌∙◌, Option, none, some, true, false, [], ◌∷◌, arith,
}
use dalgo2ingitdb.Base.Dict.{Dict, lookup, insert, erase, lookup-insert, lookup-erase}
use dalgo2ingitdb.Base.Value.{Value, string, Fields, field, Runtime, pos}
use dalgo2ingitdb.Base.Result.{external, Result, ok, err}
use dalgo2ingitdb.Schema.{
  Ingitdb, Bytes, CollectionInfo, single_record, ColumnType, ColumnDef, collection, sub, end,
  Definition,
}
use dalgo2ingitdb.Disk.{Os, Stat, found, missing, Removal, removed, absent, clean_text}
use dalgo2ingitdb.Disk.Laws.{IsLawful}
use dalgo2ingitdb.Deps.{Deps}
use dalgo2ingitdb.Git.{Git}
use dalgo2ingitdb.Git.Frame.{IsQuiet}

abbrev pub Files : Type 0
Files = Dict Bytes

abbrev pub content : Files → String → Option Bytes
content s p = lookup (clean_text p) s

abbrev stat_of : Option Bytes → Stat
stat_of none = missing
stat_of (some b) = found 0o644

abbrev read_of : Option Bytes → Result Bytes
read_of none = err (external "not found")
read_of (some b) = ok b

abbrev removal_of : Option Bytes → Removal
removal_of none = absent
removal_of (some b) = removed

abbrev pub memory : Os
memory = record {
  State = Files;
  stat = λ p s. stat_of (content s p);
  read_file = λ p s. read_of (content s p);
  glob = λ p s. ok [];
  write_file = λ p b mode s. (ok tt, insert (clean_text p) b s);
  remove = λ p s. (removal_of (content s p), erase (clean_text p) s);
  mkdir_all = λ p s. (ok tt, s);
  lock = λ p s. (ok tt, s);
  rlock = λ p s. (ok tt, s);
}

stat_of-missing : (o : Option Bytes) → stat_of o ≡ missing → o ≡ none
stat_of-missing none h = refl
stat_of-missing (some b) h = cc h

read_of-ok : (o : Option Bytes) (b : Bytes) → read_of o ≡ ok b → o ≡ some b
read_of-ok none b h = cc h
read_of-ok (some c) b h = cc h

pub memory-IsLawful : IsLawful memory content
memory-IsLawful = record {
  content-clean = λ s p q e. ap (λ k. lookup k s) e;
  stat-missing = λ s p h. stat_of-missing _ h;
  read-content = λ s p b h. read_of-ok _ b h;
  write-ok = λ s p b mode h.
      lookup-insert (clean_text p) (clean_text p) b s ∙ rw (eq_refl (clean_text p)) refl;
  write-frame = λ s p b mode q h.
      lookup-insert (clean_text p) (clean_text q) b s
      ∙ ground (arith, eq_iff (clean_text p) (clean_text q));
  remove-removed =
      λ s p h. lookup-erase (clean_text p) (clean_text p) s ∙ rw (eq_refl (clean_text p)) refl;
  remove-absent =
      λ s p h. lookup-erase (clean_text p) (clean_text p) s ∙ rw (eq_refl (clean_text p)) refl;
  remove-frame = λ s p q h.
      lookup-erase (clean_text p) (clean_text q) s
      ∙ ground (arith, eq_iff (clean_text p) (clean_text q));
  mkdir-frame = λ s p q. refl;
  lock-frame = λ s p q h. refl;
  rlock-frame = λ s p mode q h. refl;
}

-- A git whose commit always fails.
abbrev pub no_git : Git memory
no_git = record {
  is_inside_work_tree = λ s. true;
  create_temp = λ s. (err (external "no temporary file"), s);
  remove_temp = λ index s. s;
  run = λ index args s. (err (external "git"), s);
  commit_tree = λ index args message s. (err (external "git"), s);
  head = λ s. (ok none, s);
  abs = λ p. p;
  trim_space = λ p. p;
}

pub no_git-IsQuiet : (q : String) → IsQuiet memory content no_git q
no_git-IsQuiet q = record {
  create_temp = λ v. record { at = λ s h. h };
  remove_temp = λ index s. refl;
  run = λ index args v. record { at = λ s h. h };
  commit_tree = λ index args message v. record { at = λ s h. h };
  head = λ v. record { at = λ s h. h };
}

abbrev pub simple_lib : Ingitdb
simple_lib = record {
  evaluate_formula = λ f fs. ok (string f);
  foreign_key_elements = λ v. ([], []);
  apply_locale_to_read = λ fs cols. fs;
  apply_locale_to_write = λ fs cols. fs;
  records_base_path = λ file. "";
  parse_record_content = λ b col. ok (field "name" (string "Ann") Fields.end);
  encode_record_content = λ fs col. ok (1 ∷ 2 ∷ []);
  parse_map_of_records = λ b format. ok [];
  encode_map_of_records = λ rows format id order. ok (3 ∷ []);
  is_excluded = λ file name. false;
  parse_list_of_records = λ b format. ok [];
  parse_csv_records = λ b col. ok [];
  resolve_list_record_key = λ row col. none;
}

abbrev show_string : Value → String
show_string (string s) = s
show_string v = "?"

-- Floats are their whole parts here.
abbrev pub simple_runtime : Runtime
simple_runtime = record {
  of_int = λ n. 0;
  to_int64 = λ x. pos x;
  widen = λ k x. x;
  float_lt = λ x y. false;
  float_eq = λ x y. true;
  float_add = λ x y. x;
  float_div = λ x y. x;
  float_zero = 0;
  show = show_string;
  type_name = λ v. "string";
  decode_base64 = λ s. some [];
}

abbrev pub world : Deps
world = record {
  lib = simple_lib;
  rt = simple_runtime;
  goos = "linux";
  regexp = record { quote_meta = λ s. s; compile = λ p. ok (λ s. some s) };
  os = memory;
}

abbrev pub text_column : String → ColumnDef
text_column formula = record {
  type = ColumnType.string;
  required = false;
  foreign_key = "";
  formula = formula;
}

abbrev pub users_info : CollectionInfo
users_info = record {
  id = "users";
  dir_path = "/db/users";
  record_file = some (record {
    name = "{key}.json";
    format = "json";
    record_type = single_record;
    csv_cell_encoding = "";
  });
  columns =
      ("name", some (text_column ""))
      ∷ ("title", some (text_column "upper(name)"))
      ∷ ("age", some (text_column ""))
      ∷ [];
  columns_order = "name" ∷ [];
  primary_key = [];
  source_schema = none;
}

abbrev pub posts_info : CollectionInfo
posts_info = record users_info { id = "posts"; dir_path = "/db/users/posts" }

abbrev pub project : Definition
project = record {
  collections = ("users", collection users_info (sub "posts" (collection posts_info end) end)) ∷ [];
}

abbrev pub ann : Fields
ann = field "name" (string "Ann") Fields.end
