-- ===== src/Base/FilePath.antt =====
-- Go's `path/filepath` on Unix, as far as the program uses it.
use Prim.Native.Char.{code}
use Prim.Native.String.{String, ◌++◌ as append}
use or3_intern.Base.{Bool, true, false, ◌||◌, ◌==◌, List, [], ◌∷◌, ◌≡◌, refl, str_eq, if◌then◌else◌}

-- strings.Split(s, "/")
unfoldable pub split_slash : String → List String
split_slash String.[] = "" ∷ []
split_slash (String.◌∷◌ c s) =
    let rest = split_slash s in
    if code c == 47
    then "" ∷ rest
    else elim rest [ [] ↦ String.◌∷◌ c "" ∷ [] | part ∷ parts ↦ String.◌∷◌ c part ∷ parts ]

-- what `..` does to the segments before it, the last one first
unfoldable pub back_up : Bool → List String → List String
back_up true [] = []
back_up false [] = ".." ∷ []
back_up rooted (part ∷ before) = if str_eq part ".." then ".." ∷ part ∷ before else before

unfoldable pub clean_parts : Bool → List String → List String → List String
unfolding back_up
clean_parts rooted before [] = before
clean_parts rooted before (part ∷ parts) =
    let same = clean_parts rooted before parts in
    let up = clean_parts rooted (back_up rooted before) parts in
    let down = clean_parts rooted (part ∷ before) parts in
    if str_eq part "" || str_eq part "." then same else if str_eq part ".." then up else down

-- segments, the last one first, as a path
unfoldable pub join_back : List String → String
join_back [] = ""
join_back (part ∷ []) = part
join_back (part ∷ (next ∷ parts)) = append (join_back (next ∷ parts)) (append "/" part)

unfoldable pub is_rooted : String → Bool
is_rooted String.[] = false
is_rooted (String.◌∷◌ c s) = code c == 47

-- filepath.Clean
unfoldable pub clean : String → String
unfolding split_slash clean_parts join_back is_rooted
clean path =
    let joined = join_back (clean_parts (is_rooted path) [] (split_slash path)) in
    if is_rooted path then append "/" joined else if str_eq joined "" then "." else joined

unfoldable pub last_part : String → List String → String
last_part best [] = best
last_part best (part ∷ parts) = last_part (if str_eq part "" then best else part) parts

-- filepath.Base
unfoldable pub base : String → String
unfolding split_slash last_part
base path = if str_eq path "" then "." else last_part "/" (split_slash path)

-- strings.HasSuffix
unfoldable pub ends_with : String → String → Bool
ends_with String.[] suffix = str_eq suffix ""
ends_with (String.◌∷◌ c s) suffix = str_eq (String.◌∷◌ c s) suffix || ends_with s suffix

clean_test : clean "/a/./b//../c/" ≡ "/a/c"
unfolding clean
clean_test = refl

clean_up_test : clean "../../a/../.." ≡ "../../.."
unfolding clean
clean_up_test = refl

base_test : base "/etc/passwd/" ≡ "passwd"
unfolding base
base_test = refl
