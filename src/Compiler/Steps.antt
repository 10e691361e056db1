-- ===== src/Compiler/Steps.antt =====
-- What each step of the compiler does to the files.
use nautikus.Prelude.{
  String, ◌==◌, string_eq, string_dec, if◌then◌else◌, Bool-cases, Option, some, List, [], ◌∷◌, ◌++◌,
  All-append, ◌≡◌, refl, sym, ap, ◌∙◌, inl, inr,
}
use nautikus.Errors.{Error, Result, ok, err}
use nautikus.Compiler.Names.{is_hidden, ext, join}
use nautikus.Compiler.Defs.{
  DagSource, Node, Entries, Ran, run_failed, printed, System, node_name, save_path, skips, then_on,
  written, save_yaml, close_yaml, convert, after_run, generate_yaml, compile_file, walk_dir,
  walk_entries, walk_from, wrap_walk, compile_sources,
}
use nautikus.Compiler.Verdicts.{
  Verdict, broken, nothing, makes, Unbroken, made, made-append, Unbroken-left, Unbroken-right,
  is_barred, target, of_yaml, of_buffer, of_json, of_run, of_file, of_tree, of_entries, of_root,
  of_sources,
}

-- How the operating system stores files: writing a file replaces its text and no other file's, and
-- making a directory changes no text.
pub record FileStore (S : System) : Type 0 where
  pub text_at : String → S.Files → Option String
  pub write_file-stores :
      (path text : String) (f : S.Files)
      → (S.write_file path text f).0 ≡ ok tt
      → (q : String)
      → text_at q (S.write_file path text f).1 ≡ (if path == q then some text else text_at q f)
  pub mkdir_all-keeps :
      (dir : String) (f : S.Files) (q : String) → text_at q (S.mkdir_all dir f).1 ≡ text_at q f

-- No write fails.
abbrev pub WritesSucceed : System → Type 0
WritesSucceed S =
    ((path text : String) (f : S.Files) → (S.write_file path text f).0 ≡ ok tt)
    × ((dir : String) (f : S.Files) → (S.mkdir_all dir f).0 ≡ ok tt)

skips-eq-is_barred : (name : String) → skips name ≡ is_barred name
unfolding skips is_hidden string_dec
skips-eq-is_barred String.[] = refl
skips-eq-is_barred (String.◌∷◌ c s) = refl

module _ {S : System} (M : FileStore S) where
  -- A step from `f` does what the verdicts say.
  pub record Does (vs : List Verdict) (f : S.Files) (x : Result (Unit {0}) × S.Files) : Type 0 where
    pub unbroken : x.0 ≡ ok tt → Unbroken vs
    pub texts : x.0 ≡ ok tt → (q : String) → M.text_at q x.1 ≡ made q vs (M.text_at q f)
    pub succeeds : WritesSucceed S → Unbroken vs → x.0 ≡ ok tt

  Does-nothing : (f : S.Files) → Does [] f (ok tt, f)
  Does-nothing f = record { unbroken = λ e. tt; texts = λ e q. refl; succeeds = λ w u. refl }

  Does-then_on :
      (vs ws : List Verdict) (f : S.Files) (x : Result (Unit {0}) × S.Files)
      (next : S.Files → Result (Unit {0}) × S.Files)
      → Does vs f x
      → ((f' : S.Files) → Does ws f' (next f'))
      → Does (vs ++ ws) f (then_on x next)
  Does-then_on vs ws f (err e, f') next h k = record {
    unbroken = λ bad. absurd cc;
    texts = λ bad. absurd cc;
    succeeds = λ w u. absurd (let bad = h.succeeds w (Unbroken-left vs ws u) in cc);
  }
  Does-then_on vs ws f (ok _, f') next h k = record {
    unbroken = λ e. All-append _ vs ws (h.unbroken refl) ((k f').unbroken e);
    texts = λ e q.
        (k f').texts e q
        ∙ ap (made q ws) (h.texts refl q)
        ∙ sym (made-append q vs ws (M.text_at q f));
    succeeds = λ w u. (k f').succeeds w (Unbroken-right vs ws u);
  }

  Does-written :
      (path text : String) (f : S.Files)
      → Does (makes path text ∷ []) f (written S (S.write_file path text f))
  Does-written path text f = go (S.write_file path text f) refl
    where
      go :
          (x : Result (Unit {0}) × S.Files)
          → S.write_file path text f ≡ x
          → Does (makes path text ∷ []) f (written S x)
      go (err e, f') same = record {
        unbroken = λ bad. absurd cc;
        texts = λ bad. absurd cc;
        succeeds = λ w u. absurd (let fine = w.0 path text f in cc);
      }
      go (ok _, f') same = record {
        unbroken = λ e. ((λ bad. cc), tt);
        texts = λ e q.
            ap (λ x. M.text_at q x.1) (sym same)
            ∙ M.write_file-stores path text f (ap (λ x. x.0) same) q;
        succeeds = λ w u. refl;
      }

  Does-broken : (e : Error) (f : S.Files) → Does (broken ∷ []) f (err e, f)
  Does-broken e f = record {
    unbroken = λ bad. absurd cc;
    texts = λ bad. absurd cc;
    succeeds = λ w u. absurd (u.0 refl);
  }

  Does-quiet : (f : S.Files) → Does (nothing ∷ []) f (ok tt, f)
  Does-quiet f = record {
    unbroken = λ e. ((λ bad. cc), tt);
    texts = λ e q. refl;
    succeeds = λ w u. refl;
  }

  Does-save_yaml :
      (src_path output_dir : String) (y : Result String) (f : S.Files)
      → Does (of_yaml S (target output_dir src_path) y ∷ []) f (save_yaml S src_path output_dir y f)
  unfolding save_yaml save_path
  Does-save_yaml src_path output_dir (err e) f = Does-broken _ f
  Does-save_yaml src_path output_dir (ok yaml) f = Does-written (target output_dir src_path) yaml f

  Does-close_yaml :
      (src_path output_dir : String) (y : Result String) (f : S.Files)
      → Does
          (of_buffer S (target output_dir src_path) y ∷ [])
          f
          (close_yaml S src_path output_dir y f)
  unfolding close_yaml
  Does-close_yaml src_path output_dir (err e) f = Does-broken _ f
  Does-close_yaml src_path output_dir (ok buffer) f =
      Does-save_yaml src_path output_dir (S.close buffer) f

  Does-convert :
      (src_path output_dir : String) (x : Result S.Data) (f : S.Files)
      → Does (of_json S (target output_dir src_path) x ∷ []) f (convert S src_path output_dir x f)
  unfolding convert
  Does-convert src_path output_dir (err e) f = Does-quiet f
  Does-convert src_path output_dir (ok data') f =
      Does-close_yaml src_path output_dir (S.encode data') f

  Does-after_run :
      (src_path output_dir : String) (x : Ran) (f : S.Files)
      → Does (of_run S (target output_dir src_path) x ∷ []) f (after_run S src_path output_dir x f)
  unfolding after_run
  Does-after_run src_path output_dir (run_failed stderr) f = Does-broken _ f
  Does-after_run src_path output_dir (printed output) f = elim (Bool-cases (output == "")) [
    | inl e ↦ rw e (Does-quiet f)
    | inr e ↦ rw e (Does-convert src_path output_dir (S.parse_json output) f)
  ]

  Does-compile_file :
      (output_dir path name : String) (f : S.Files)
      → Does (of_file S output_dir path name) f (compile_file S output_dir path name f)
  unfolding compile_file generate_yaml
  Does-compile_file output_dir path name f = elim (Bool-cases (ext name == ".py")) [
    | inl e ↦ rw e (Does-after_run path output_dir (S.run "python3" (path ∷ [])) f)
    | inr e ↦ elim (Bool-cases (ext name == ".go")) [
      | inl e' ↦ rw (e, e') (Does-after_run path output_dir (S.run "go" ("run" ∷ path ∷ [])) f)
      | inr e' ↦ rw (e, e') (Does-nothing f)
    ]
  ]

  mutual
    unfolding walk_dir

    Does-walk_dir :
        (output_dir path : String) (node : Node) (f : S.Files)
        → Does (of_tree S output_dir path node) f (walk_dir S output_dir path node f)
    Does-walk_dir output_dir path (Node.file name) f = Does-compile_file output_dir path name f
    Does-walk_dir output_dir path (Node.directory name entries) f =
        let inside = Does-walk_entries output_dir path entries f in
        rw (skips-eq-is_barred name) (elim (Bool-cases (is_barred name)) [
          | inl e ↦ rw e (Does-nothing f)
          | inr e ↦ rw e inside
        ])
    Does-walk_dir output_dir path (Node.unreadable name e) f =
        rw (skips-eq-is_barred name) (elim (Bool-cases (is_barred name)) [
          | inl h ↦ rw h (Does-nothing f)
          | inr h ↦ rw h (Does-broken e f)
        ])

    Does-walk_entries :
        (output_dir path : String) (entries : Entries) (f : S.Files)
        → Does (of_entries S output_dir path entries) f (walk_entries S output_dir path entries f)
    Does-walk_entries output_dir path Entries.end f = Does-nothing f
    Does-walk_entries output_dir path (Entries.entry node rest) f =
        Does-then_on (of_tree S output_dir (join path (node_name node)) node)
          (of_entries S output_dir path rest) f
          (walk_dir S output_dir (join path (node_name node)) node f)
          (walk_entries S output_dir path rest)
          (Does-walk_dir output_dir (join path (node_name node)) node f)
          (λ f'. Does-walk_entries output_dir path rest f')

  Does-wrap_walk :
      (vs : List Verdict) (location : String) (f : S.Files) (x : Result (Unit {0}) × S.Files)
      → Does vs f x
      → Does vs f (wrap_walk S location x)
  Does-wrap_walk vs location f (ok _, f') h = h
  Does-wrap_walk vs location f (err e, f') h = record {
    unbroken = λ bad. absurd cc;
    texts = λ bad. absurd cc;
    succeeds = λ w u. absurd (let bad = h.succeeds w u in cc);
  }

  Does-walk_from :
      (output_dir location : String) (x : Result Node) (f : S.Files)
      → Does (of_root S output_dir location x) f (walk_from S output_dir location x f)
  unfolding walk_from
  Does-walk_from output_dir location (err e) f = Does-broken e f
  Does-walk_from output_dir location (ok root) f = Does-walk_dir output_dir location root f

  pub Does-compile_sources :
      (output_dir : String) (sources : List DagSource) (f : S.Files)
      → Does (of_sources S output_dir sources) f (compile_sources S output_dir sources f)
  unfolding compile_sources
  Does-compile_sources output_dir [] f = Does-nothing f
  Does-compile_sources output_dir (src ∷ sources) f =
      Does-then_on (of_root S output_dir src.location (S.tree_at src.location))
        (of_sources S output_dir sources) f _ (compile_sources S output_dir sources)
        (Does-wrap_walk (of_root S output_dir src.location (S.tree_at src.location)) src.location f
          _ (Does-walk_from output_dir src.location (S.tree_at src.location) f))
        (λ f'. Does-compile_sources output_dir sources f')
