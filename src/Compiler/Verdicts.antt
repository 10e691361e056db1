-- ===== src/Compiler/Verdicts.antt =====
-- What the sources of a configuration call for, path by path.
use Prim.Native.Char.{code}
use nautikus.Prelude.{
  String, ◌<>◌, ◌==◌, string_eq, Bool, false, ◌||◌, eqb, if◌then◌else◌, Option, some, List, [], ◌∷◌,
  ◌++◌, All, ◌≡◌, ◌≢◌, refl,
}
use nautikus.Errors.{Result, ok, err}
use nautikus.Compiler.Names.{ext, trim_suffix, base, join}
use nautikus.Compiler.Defs.{DagSource, Node, Entries, Ran, run_failed, printed, System, node_name}

-- What a visited path calls for: the end with an error, nothing, or a file.
pub data Verdict : Type 0 where
  broken nothing : Verdict
  makes : String → String → Verdict

-- Hidden directories and those of scripts are not entered.
abbrev pub is_barred : String → Bool
is_barred String.[] = false
is_barred (String.◌∷◌ c s) = eqb (code c) b'.' || String.◌∷◌ c s == "scripts"

-- The file for a source file: in the output directory, with `.yaml` in place of its extension.
abbrev pub target : String → String → String
target output_dir path = join output_dir (trim_suffix (ext (base path)) (base path) <> ".yaml")

-- None of them ends with an error.
abbrev pub Unbroken : List Verdict → Type 0
Unbroken vs = All (λ v. v ≢ broken) vs

-- The text at a path after all of them, where it was `before` before.
abbrev pub made : String → List Verdict → Option String → Option String
made path [] before = before
made path (makes p yaml ∷ vs) before = made path vs (if p == path then some yaml else before)
made path (nothing ∷ vs) before = made path vs before
made path (broken ∷ vs) before = made path vs before

pub made-append :
    (path : String) (vs ws : List Verdict) (before : Option String)
    → made path (vs ++ ws) before ≡ made path ws (made path vs before)
made-append path [] ws before = refl
made-append path (makes p yaml ∷ vs) ws before =
    made-append path vs ws (if p == path then some yaml else before)
made-append path (nothing ∷ vs) ws before = made-append path vs ws before
made-append path (broken ∷ vs) ws before = made-append path vs ws before

pub Unbroken-left : (vs ws : List Verdict) → Unbroken (vs ++ ws) → Unbroken vs
Unbroken-left [] ws h = tt
Unbroken-left (v ∷ vs) ws h = (h.0, Unbroken-left vs ws h.1)

pub Unbroken-right : (vs ws : List Verdict) → Unbroken (vs ++ ws) → Unbroken ws
Unbroken-right [] ws h = h
Unbroken-right (v ∷ vs) ws h = Unbroken-right vs ws h.1

module _ (S : System) where
  abbrev pub of_yaml : String → Result String → Verdict
  of_yaml path (err e) = broken
  of_yaml path (ok yaml) = makes path yaml

  abbrev pub of_buffer : String → Result String → Verdict
  of_buffer path (err e) = broken
  of_buffer path (ok buffer) = of_yaml path (S.close buffer)

  abbrev pub of_json : String → Result S.Data → Verdict
  of_json path (err e) = nothing
  of_json path (ok data') = of_buffer path (S.encode data')

  -- The program prints a JSON value, and its text in YAML belongs at the path.
  abbrev pub of_run : String → Ran → Verdict
  of_run path (run_failed stderr) = broken
  of_run path (printed output) =
      if output == "" then nothing else of_json path (S.parse_json output)

  -- Python and Go files are run; other files call for nothing.
  abbrev pub of_file : String → String → String → List Verdict
  of_file output_dir path name =
      if ext name == ".py"
      then of_run (target output_dir path) (S.run "python3" (path ∷ [])) ∷ []
      else if ext name == ".go"
      then of_run (target output_dir path) (S.run "go" ("run" ∷ path ∷ [])) ∷ []
      else []

  -- The files of a tree in order, without the directories that are not entered.
  abbrev mutual
    pub of_tree : String → String → Node → List Verdict
    of_tree output_dir path (Node.file name) = of_file output_dir path name
    of_tree output_dir path (Node.directory name entries) =
        let inside = of_entries output_dir path entries in if is_barred name then [] else inside
    of_tree output_dir path (Node.unreadable name e) = if is_barred name then [] else broken ∷ []

    pub of_entries : String → String → Entries → List Verdict
    of_entries output_dir path Entries.end = []
    of_entries output_dir path (Entries.entry node rest) =
        of_tree output_dir (join path (node_name node)) node ++ of_entries output_dir path rest

  abbrev pub of_root : String → String → Result Node → List Verdict
  of_root output_dir location (err e) = broken ∷ []
  of_root output_dir location (ok root) = of_tree output_dir location root

  -- All sources, one after the other.
  abbrev pub of_sources : String → List DagSource → List Verdict
  of_sources output_dir [] = []
  of_sources output_dir (src ∷ sources) =
      of_root output_dir src.location (S.tree_at src.location) ++ of_sources output_dir sources
