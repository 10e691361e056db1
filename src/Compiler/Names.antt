-- ===== src/Compiler/Names.antt =====
-- What the compiler uses of Go's `strings` and `path/filepath`.
use Prim.Native.Char.{Char, code}
use nautikus.Prelude.{
  String, ◌<>◌, Bool, true, false, not, ◌||◌, ◌&&◌, eqb, ◌==◌, string_eq, if◌then◌else◌, List, [],
  ◌∷◌,
}

abbrev is_dot : Char → Bool
is_dot c = eqb (code c) b'.'

abbrev is_slash : Char → Bool
is_slash c = eqb (code c) b'/'

-- `strings.HasPrefix(name, ".")`
unfoldable pub is_hidden : String → Bool
is_hidden String.[] = false
is_hidden (String.◌∷◌ c s) = is_dot c

abbrev has_slash : String → Bool
has_slash String.[] = false
has_slash (String.◌∷◌ c s) = is_slash c || has_slash s

-- `filepath.Ext`: from the last dot of the last component on.
unfoldable pub ext : String → String
ext String.[] = ""
ext (String.◌∷◌ c s) =
    let rest = ext s in
    if rest == "" then (if is_dot c && not (has_slash s) then String.◌∷◌ c s else "") else rest

-- `strings.TrimSuffix(s, suffix)`
unfoldable pub trim_suffix : String → String → String
trim_suffix suffix String.[] = ""
trim_suffix suffix (String.◌∷◌ c s) =
    let rest = trim_suffix suffix s in if String.◌∷◌ c s == suffix then "" else String.◌∷◌ c rest

abbrev trim_slashes : String → String
trim_slashes String.[] = ""
trim_slashes (String.◌∷◌ c s) =
    let rest = trim_slashes s in if rest == "" && is_slash c then "" else String.◌∷◌ c rest

abbrev after_slash : String → String
after_slash String.[] = ""
after_slash (String.◌∷◌ c s) =
    let rest = after_slash s in
    if has_slash s then rest else if is_slash c then s else String.◌∷◌ c s

abbrev or_root : String → String
or_root name = if name == "" then "/" else name

-- `filepath.Base`: the last component, without the slashes behind it.
unfoldable pub base : String → String
base path = if path == "" then "." else or_root (after_slash (trim_slashes path))

abbrev in_first : Char → List String → List String
in_first c [] = String.◌∷◌ c "" ∷ []
in_first c (part ∷ parts) = String.◌∷◌ c part ∷ parts

-- The texts between the slashes.
abbrev components : String → List String
components String.[] = "" ∷ []
components (String.◌∷◌ c s) =
    let rest = components s in if is_slash c then "" ∷ rest else in_first c rest

-- `..` takes back the component before it, is dropped at the root, and is kept where nothing but `..`
-- comes before it.
abbrev take_back : Bool → List String → List String
take_back rooted [] = if rooted then [] else ".." ∷ []
take_back rooted (last ∷ kept) = if last == ".." then ".." ∷ last ∷ kept else kept

-- The components that `filepath.Clean` keeps, the last one first.
abbrev resolve : Bool → List String → List String → List String
resolve rooted kept [] = kept
resolve rooted kept (part ∷ parts) =
    resolve rooted
      (if part == "" || part == "."
        then kept
        else if part == ".."
        then take_back rooted kept
        else part ∷ kept)
      parts

abbrev path_of : List String → String
path_of [] = ""
path_of (last ∷ kept) =
    let front = path_of kept in if front == "" then last else front <> ("/" <> last)

abbrev is_rooted : String → Bool
is_rooted String.[] = false
is_rooted (String.◌∷◌ c s) = is_slash c

abbrev or_here : String → String
or_here path = if path == "" then "." else path

-- `filepath.Clean`
unfoldable pub clean : String → String
clean path =
    if is_rooted path
    then "/" <> path_of (resolve true [] (components path))
    else or_here (path_of (resolve false [] (components path)))

-- `filepath.Join(dir, name)`: empty elements are left out, and the result is clean.
unfoldable pub join : String → String → String
unfolding clean
join dir name =
    if dir == "" then (if name == "" then "" else clean name) else clean (dir <> ("/" <> name))
