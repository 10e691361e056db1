-- ===== src/Tests/Sources.antt =====
-- A directory of sources and what the compiler makes of it.
use nautikus.Prelude.{
  String, ◌<>◌, ◌==◌, string_eq, string_dec, if◌then◌else◌, List, [], ◌∷◌, ◌≡◌, refl, ◌↔◌,
}
use nautikus.Prelude.Dict
use nautikus.Prelude.Dict.{Dict}
use nautikus.Errors.{text, Result, ok, err}
use nautikus.Compiler.{
  DagSource, Node, Entries, Ran, System, is_hidden, ext, trim_suffix, join, base, save_path, skips,
  save_yaml, close_yaml, convert, after_run, generate_yaml, compile_file, walk_dir, walk_from,
  compile_sources, compile_dags, compile, main,
}
use nautikus.Compiler.Verdicts.{makes, Unbroken, made, of_sources}
use nautikus.Compiler.Steps.{FileStore, WritesSucceed}
use nautikus.Compiler.Outputs.{compile_dags-made, main-Unbroken_iff}

-- A Go and a Python file of one stem, a text, and two directories that are not entered.
abbrev dags : Node
dags = Node.directory "dags" (
    Entries.entry (Node.directory ".git" (Entries.entry (Node.file "hook.py") Entries.end)) (
      Entries.entry (Node.file "etl.go") (
        Entries.entry (Node.file "etl.py") (
          Entries.entry (Node.file "notes.txt")
            (Entries.entry (Node.unreadable "scripts" (text "permission denied")) Entries.end)))))

abbrev tree_of : String → Result Node
tree_of location = if location == "./dags" then ok dags else err (text "no such file or directory")

-- What Go's `filepath` makes of the paths.
cleaned :
    (join "./test/dags" "x.go" ≡ "test/dags/x.go")
    × (join "output/" "x.yaml" ≡ "output/x.yaml")
    × (join "" "x.go" ≡ "x.go")
    × (join "/../a/./b" "../x.go" ≡ "/a/x.go")
    × (join ".." "../x.go" ≡ "../../x.go")
    × (join "a" ".." ≡ ".")
    × (base "a/b.go//" ≡ "b.go")
    × (base "//" ≡ "/")
    × (ext "a.b/c" ≡ "")
unfolding join base ext string_dec
cleaned = (refl, refl, refl, refl, refl, refl, refl, refl, refl)

-- A system in which a program prints its command, and YAML is a list of one item.
abbrev disk : System
disk = record {
  Files = Dict String String;
  Data = String;
  read_file = λ path. if path == "config.yaml" then ok "./dags" else err (text "no such file");
  parse_sources = λ content. ok (record { name = "local"; location = content } ∷ []);
  parse_json = λ output. ok output;
  encode = λ value. ok ("- " <> value);
  close = λ buffer. ok buffer;
  tree_at = tree_of;
  run = λ cmd args. Ran.printed cmd;
  mkdir_all = λ dir f. (ok tt, f);
  write_file = λ path yaml f. (ok tt, Dict.insert path yaml f);
}

disk_store : FileStore disk
disk_store = record {
  text_at = λ path f. Dict.lookup path f;
  write_file-stores = λ path yaml f fine q. Dict.lookup-insert path q yaml f;
  mkdir_all-keeps = λ dir f q. refl;
}

abbrev sources : List DagSource
sources = record { name = "local"; location = "./dags" } ∷ []

-- The Python file, which comes later, takes the place of the Go file.
sources_made :
    of_sources disk "dist/" sources
    ≡ makes "dist/etl.yaml" "- go" ∷ makes "dist/etl.yaml" "- python3" ∷ []
unfolding skips is_hidden ext trim_suffix join base save_path string_dec
sources_made = refl

compiled_fine : (compile_dags disk "config.yaml" "dist/" []).0 ≡ ok tt
unfolding compile_dags compile_sources walk_from walk_dir compile_file generate_yaml after_run
    convert close_yaml save_yaml skips is_hidden ext trim_suffix join base save_path string_dec
compiled_fine = refl

compile_dags-made_example :
    (content : String) × (found : List DagSource) × (disk.read_file "config.yaml" ≡ ok content)
    × (disk.parse_sources content ≡ ok found)
    × Unbroken (of_sources disk "dist/" found)
    × ((q : String)
        → disk_store.text_at q (compile_dags disk "config.yaml" "dist/" []).1
          ≡ made q (of_sources disk "dist/" found) (disk_store.text_at q []))
compile_dags-made_example = compile_dags-made disk_store "config.yaml" "dist/" [] compiled_fine

disk-WritesSucceed : WritesSucceed disk
disk-WritesSucceed = (λ path yaml f. refl, λ dir f. refl)

main-Unbroken_iff_example : ((main disk (compile "config.yaml" "dist/") []).0 ≡ 0) ↔ (
    (content : String) × (found : List DagSource) × (disk.read_file "config.yaml" ≡ ok content)
    × (disk.parse_sources content ≡ ok found)
    × Unbroken (of_sources disk "dist/" found))
main-Unbroken_iff_example = main-Unbroken_iff disk_store "config.yaml" "dist/" [] disk-WritesSucceed
