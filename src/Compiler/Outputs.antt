-- ===== src/Compiler/Outputs.antt =====
-- What the compiler writes, and when it succeeds.
use nautikus.Prelude.{◌↔◌, String, string_eq, List, ◌≡◌, refl, ap, ◌∙◌}
use nautikus.Errors.{Result, ok, err}
use nautikus.Compiler.Defs.{DagSource, System, after_mkdir, after_parse, after_read, compile_dags}
use nautikus.Compiler.Cli.{compile, compiled, execute_command, exit_status, main}
use nautikus.Compiler.Steps.{FileStore, WritesSucceed, Does-compile_sources}
use nautikus.Compiler.Verdicts.{Unbroken, made, of_sources}

module _ {S : System} (M : FileStore S) where
  -- If the operating system stores files as it documents it and `CompileDags` returns no error, then
  -- the configuration could be read and lists sources, no path that is visited in them called for an
  -- error, and the text of every file is the one of the last visited program whose file it is, or what
  -- it was before where no program has that file.
  pub compile_dags-made :
      (config_path output_dir : String) (f : S.Files)
      → (compile_dags S config_path output_dir f).0 ≡ ok tt
      → (content : String) × (sources : List DagSource) × (S.read_file config_path ≡ ok content)
        × (S.parse_sources content ≡ ok sources)
        × Unbroken (of_sources S output_dir sources)
        × ((q : String)
            → M.text_at q (compile_dags S config_path output_dir f).1
              ≡ made q (of_sources S output_dir sources) (M.text_at q f))
  unfolding compile_dags
  compile_dags-made config_path output_dir f = reading (S.read_file config_path) refl
    where
      making :
          (sources : List DagSource) (x : Result (Unit {0}) × S.Files)
          → ((q : String) → M.text_at q x.1 ≡ M.text_at q f)
          → (after_mkdir S output_dir sources x).0 ≡ ok tt
          → Unbroken (of_sources S output_dir sources)
            × ((q : String)
                → M.text_at q (after_mkdir S output_dir sources x).1
                  ≡ made q (of_sources S output_dir sources) (M.text_at q f))
      making sources (err e, f') same fine = absurd cc
      making sources (ok _, f') same fine =
          let does = Does-compile_sources M output_dir sources f' in
          (
            does.unbroken fine,
            λ q. does.texts fine q ∙ ap (made q (of_sources S output_dir sources)) (same q),
          )

      parsing :
          (x : Result (List DagSource))
          → (after_parse S output_dir x f).0 ≡ ok tt
          → (sources : List DagSource) × (x ≡ ok sources)
            × Unbroken (of_sources S output_dir sources)
            × ((q : String)
                → M.text_at q (after_parse S output_dir x f).1
                  ≡ made q (of_sources S output_dir sources) (M.text_at q f))
      parsing (err e) fine = absurd cc
      parsing (ok sources) fine =
          let (unbroken, texts) =
            making sources (S.mkdir_all output_dir f) (M.mkdir_all-keeps output_dir f) fine in
          (sources, refl, unbroken, texts)

      reading :
          (x : Result String)
          → S.read_file config_path ≡ x
          → (after_read S output_dir x f).0 ≡ ok tt
          → (content : String) × (sources : List DagSource) × (x ≡ ok content)
            × (S.parse_sources content ≡ ok sources)
            × Unbroken (of_sources S output_dir sources)
            × ((q : String)
                → M.text_at q (after_read S output_dir x f).1
                  ≡ made q (of_sources S output_dir sources) (M.text_at q f))
      reading (err e) same fine = absurd cc
      reading (ok content) same fine =
          let (sources, parsed, unbroken, texts) = parsing (S.parse_sources content) fine in
          (content, sources, refl, parsed, unbroken, texts)

  made_dir :
      (output_dir : String) (sources : List DagSource) (x : Result (Unit {0}) × S.Files)
      → x.0 ≡ ok tt
      → WritesSucceed S
      → Unbroken (of_sources S output_dir sources)
      → (after_mkdir S output_dir sources x).0 ≡ ok tt
  made_dir output_dir sources (err e, f') fine writes unbroken = absurd cc
  made_dir output_dir sources (ok _, f') fine writes unbroken =
      (Does-compile_sources M output_dir sources f').succeeds writes unbroken

  compile_dags_succeeds :
      (config_path output_dir : String) (f : S.Files) (content : String) (sources : List DagSource)
      → S.read_file config_path ≡ ok content
      → S.parse_sources content ≡ ok sources
      → WritesSucceed S
      → Unbroken (of_sources S output_dir sources)
      → (compile_dags S config_path output_dir f).0 ≡ ok tt
  unfolding compile_dags
  compile_dags_succeeds config_path output_dir f content sources read parsed writes unbroken =
      rw (read, parsed)
        (made_dir output_dir sources (S.mkdir_all output_dir f) (writes.1 output_dir f) writes
          unbroken)

  -- If the operating system stores files as it documents it and no write fails, then the process of
  -- `compile` ends with exit status 0 just when the configuration can be read and lists sources and no
  -- path that is visited in them calls for an error.
  pub main-Unbroken_iff :
      (config_path output_dir : String) (f : S.Files)
      → WritesSucceed S
      → ((main S (compile config_path output_dir) f).0 ≡ 0) ↔ (
          (content : String) × (sources : List DagSource) × (S.read_file config_path ≡ ok content)
          × (S.parse_sources content ≡ ok sources)
          × Unbroken (of_sources S output_dir sources))
  unfolding main execute_command
  main-Unbroken_iff config_path output_dir f writes = (
    λ e.
        let (content, sources, read, parsed, unbroken, _) =
          compile_dags-made config_path output_dir f
            (zero_lem (compile_dags S config_path output_dir f) e) in
        (content, sources, read, parsed, unbroken),
    λ (content, sources, read, parsed, unbroken). ok_lem (compile_dags S config_path output_dir f) (
        compile_dags_succeeds config_path output_dir f content sources read parsed writes unbroken),
  )
    where
      zero_lem :
          (x : Result (Unit {0}) × S.Files) → (exit_status S (compiled S x)).0 ≡ 0 → x.0 ≡ ok tt
      zero_lem (err e, f') h = absurd cc
      zero_lem (ok _, f') h = refl

      ok_lem :
          (x : Result (Unit {0}) × S.Files) → x.0 ≡ ok tt → (exit_status S (compiled S x)).0 ≡ 0
      ok_lem (err e, f') h = absurd cc
      ok_lem (ok _, f') h = refl
