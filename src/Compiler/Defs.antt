-- ===== src/Compiler/Defs.antt =====
-- `CompileDags` and `generateYAML`. A file that `WalkDir` comes to is `file`; a directory whose
-- entries cannot be read is `unreadable`.
use nautikus.Prelude.{String, ◌<>◌, ◌||◌, ◌==◌, string_eq, if◌then◌else◌, Bool, List, [], ◌∷◌}
use nautikus.Errors.{Error, text, wrap, Result, ok, err}
use nautikus.Compiler.Names.{is_hidden, ext, trim_suffix, join, base}

pub record DagSource : Type 0 where
  pub name : String
  pub location : String

-- A directory tree, the entries of a directory in lexical order, as `WalkDir` visits them.
mutual
  pub data Node : Type 0 where
    file : String → Node
    directory : String → Entries → Node
    unreadable : String → Error → Node

  pub data Entries : Type 0 where
    end : Entries
    entry : Node → Entries → Entries

-- How a program ends: with an exit status that is not 0, and what it wrote to its standard error, or
-- with what it printed.
pub data Ran : Type 0 where
  run_failed : String → Ran
  printed : String → Ran

-- The system that the compiler works on: the files that it writes, and what it reads and runs. The
-- sources and what a program prints are the same whenever they are read and run, and no program writes
-- to the output directory.
pub record System : Type 1 where
  pub Files : Type 0
  -- A JSON value.
  pub Data : Type 0
  pub read_file : String → Result String
  -- `yaml.Unmarshal` of a list of sources, `json.Unmarshal`, and the YAML encoder's `Encode` and `Close`,
  -- which answer with the text in the buffer.
  pub parse_sources : String → Result (List DagSource)
  pub parse_json : String → Result Data
  pub encode : Data → Result String
  pub close : String → Result String
  -- What is at a location.
  pub tree_at : String → Result Node
  pub run : String → List String → Ran
  pub mkdir_all : String → Files → Result (Unit {0}) × Files
  pub write_file : String → String → Files → Result (Unit {0}) × Files

abbrev pub node_name : Node → String
node_name (Node.file name) = name
node_name (Node.directory name entries) = name
node_name (Node.unreadable name e) = name

-- The path of the file that is written for a source file.
unfoldable pub save_path : String → String → String
save_path output_dir src_path =
    join output_dir (trim_suffix (ext (base src_path)) (base src_path) <> ".yaml")

-- The directories that are not entered.
unfoldable pub skips : String → Bool
skips name = is_hidden name || name == "scripts"

-- A step that fails ends what follows.
abbrev pub then_on :
    {F : Type 0} → Result (Unit {0}) × F → (F → Result (Unit {0}) × F) → Result (Unit {0}) × F
then_on (err e, f) next = (err e, f)
then_on (ok _, f) next = next f

module _ (S : System) where
  -- The end of `generateYAML`, on the answer of `os.WriteFile`.
  abbrev pub written : Result (Unit {0}) × S.Files → Result (Unit {0}) × S.Files
  written (err e, f) = (err (wrap "write error" e), f)
  written (ok _, f) = (ok tt, f)

  unfoldable pub save_yaml : String → String → Result String → S.Files → Result (Unit {0}) × S.Files
  save_yaml src_path output_dir (err e) f = (err (wrap "failed to close YAML encoder" e), f)
  save_yaml src_path output_dir (ok yaml) f =
      written (S.write_file (save_path output_dir src_path) yaml f)

  unfoldable pub close_yaml :
      String → String → Result String → S.Files → Result (Unit {0}) × S.Files
  unfolding save_yaml
  close_yaml src_path output_dir (err e) f = (err (wrap "failed to convert to YAML" e), f)
  close_yaml src_path output_dir (ok buffer) f = save_yaml src_path output_dir (S.close buffer) f

  -- Output that is no JSON is skipped with a warning.
  unfoldable pub convert : String → String → Result S.Data → S.Files → Result (Unit {0}) × S.Files
  unfolding close_yaml
  convert src_path output_dir (err e) f = (ok tt, f)
  convert src_path output_dir (ok data') f = close_yaml src_path output_dir (S.encode data') f

  unfoldable pub after_run : String → String → Ran → S.Files → Result (Unit {0}) × S.Files
  unfolding convert
  after_run src_path output_dir (run_failed stderr) f =
      (err (text ("execution failed for " <> (src_path <> ("\n[Stderr]: " <> stderr)))), f)
  after_run src_path output_dir (printed output) f =
      if output == "" then (ok tt, f) else convert src_path output_dir (S.parse_json output) f

  unfoldable pub generate_yaml :
      String → List String → String → String → S.Files → Result (Unit {0}) × S.Files
  unfolding after_run
  generate_yaml cmd_name cmd_args src_path output_dir f =
      after_run src_path output_dir (S.run cmd_name cmd_args) f

  -- The callback of `WalkDir` for a file.
  unfoldable pub compile_file : String → String → String → S.Files → Result (Unit {0}) × S.Files
  unfolding generate_yaml
  compile_file output_dir path name f =
      if ext name == ".py"
      then generate_yaml "python3" (path ∷ []) path output_dir f
      else if ext name == ".go"
      then generate_yaml "go" ("run" ∷ path ∷ []) path output_dir f
      else (ok tt, f)

  -- `filepath.WalkDir` with that callback.
  unfoldable mutual
    unfolding compile_file skips

    pub walk_dir : String → String → Node → S.Files → Result (Unit {0}) × S.Files
    walk_dir output_dir path (Node.file name) f = compile_file output_dir path name f
    walk_dir output_dir path (Node.directory name entries) f =
        let inside = walk_entries output_dir path entries f in
        if skips name then (ok tt, f) else inside
    walk_dir output_dir path (Node.unreadable name e) f =
        if skips name then (ok tt, f) else (err e, f)

    pub walk_entries : String → String → Entries → S.Files → Result (Unit {0}) × S.Files
    walk_entries output_dir path Entries.end f = (ok tt, f)
    walk_entries output_dir path (Entries.entry node rest) f =
        then_on (walk_dir output_dir (join path (node_name node)) node f)
          (walk_entries output_dir path rest)

  -- An error for the root is handed to the callback, which returns it.
  unfoldable pub walk_from : String → String → Result Node → S.Files → Result (Unit {0}) × S.Files
  walk_from output_dir location (err e) f = (err e, f)
  walk_from output_dir location (ok root) f = walk_dir output_dir location root f

  abbrev pub wrap_walk : String → Result (Unit {0}) × S.Files → Result (Unit {0}) × S.Files
  wrap_walk location (err e, f) = (err (wrap ("walk error in " <> location) e), f)
  wrap_walk location (ok _, f) = (ok tt, f)

  -- The loop over the sources.
  unfoldable pub compile_sources : String → List DagSource → S.Files → Result (Unit {0}) × S.Files
  unfolding walk_from
  compile_sources output_dir [] f = (ok tt, f)
  compile_sources output_dir (src ∷ sources) f =
      then_on
        (wrap_walk src.location (walk_from output_dir src.location (S.tree_at src.location) f))
        (compile_sources output_dir sources)

  abbrev pub after_mkdir :
      String → List DagSource → Result (Unit {0}) × S.Files → Result (Unit {0}) × S.Files
  after_mkdir output_dir sources (err e, f) = (err (wrap "failed to create output dir" e), f)
  after_mkdir output_dir sources (ok _, f) = compile_sources output_dir sources f

  abbrev pub after_parse : String → Result (List DagSource) → S.Files → Result (Unit {0}) × S.Files
  after_parse output_dir (err e) f = (err (wrap "yaml parse error" e), f)
  after_parse output_dir (ok sources) f = after_mkdir output_dir sources (S.mkdir_all output_dir f)

  abbrev pub after_read : String → Result String → S.Files → Result (Unit {0}) × S.Files
  after_read output_dir (err e) f = (err (wrap "read config error" e), f)
  after_read output_dir (ok data') f = after_parse output_dir (S.parse_sources data') f

  unfoldable pub compile_dags : String → String → S.Files → Result (Unit {0}) × S.Files
  unfolding compile_sources
  compile_dags config_path output_dir f = after_read output_dir (S.read_file config_path) f
