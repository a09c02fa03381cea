-- ===== src/Runtime/Path.antt =====
-- android-runtime/session.cpp: path atoms, xrStringToPath and xrPathToString.
use Prim.Native.Char.{code}
use Prim.Native.String.{String}
use axrb.Common.{
  ℕ, ◌+◌, u64, Bool, true, false, ◌&&◌, ◌||◌, not, Option, none, some, List, [], ◌∷◌, ◌++◌, length,
  take, ltb, leb, ◌==◌, if◌then◌else◌,
}
use axrb.Xr.{
  XrResult, Handle, null_path, success, handle_invalid, path_format_invalid, path_invalid,
  out_of_memory, validation_failure,
}
use axrb.Runtime.{Runtime, Reply, PathRecord, max_paths, fail, is_valid_instance}

-- The bytes of an ASCII literal.
abbrev pub codes : String → List ℕ
codes String.[] = []
codes (String.◌∷◌ c s) = code c ∷ codes s

-- `==` of std::string_view.
unfoldable pub same_text : List ℕ → List ℕ → Bool
same_text [] [] = true
same_text [] (b ∷ bs) = false
same_text (a ∷ as') [] = false
same_text (a ∷ as') (b ∷ bs) = a == b && same_text as' bs

-- `char text[128]`, of which `strncpy` writes at most 127 bytes and the last stays zero.
abbrev pub text_size : ℕ
text_size = 128

abbrev pub stored_text : List ℕ → List ℕ
stored_text text = take 127 text

unfoldable pub starts_with_slash : List ℕ → Bool
starts_with_slash [] = false
starts_with_slash (c ∷ _) = c == b'/'

-- `path_text`: "" for a path that has no record.
unfoldable pub path_text : List PathRecord → ℕ → List ℕ
path_text [] path = []
path_text (record_ ∷ rest) path = if record_.path == path then record_.text else path_text rest path

-- The search loop of xrStringToPath.
unfoldable pub find_text : List PathRecord → List ℕ → Option ℕ
unfolding same_text
find_text [] requested = none
find_text (record_ ∷ rest) requested =
    if same_text requested record_.text then some record_.path else find_text rest requested

add_path : List ℕ → Runtime → Reply ℕ
add_path text r = if leb max_paths (length r.paths) then fail out_of_memory r else (
  success,
  some r.next_path,
  record r {
    paths = r.paths ++ record { path = r.next_path; text = stored_text text } ∷ [];
    next_path = u64 (r.next_path + 1);
  },
)

unfoldable pub intern : Option ℕ → List ℕ → Runtime → Reply ℕ
unfolding add_path
intern (some path) text r = (success, some path, r)
intern none text r = add_path text r

-- The string is the bytes before its terminator, `none` for a null pointer.
unfoldable pub string_to_path : Handle → Option (List ℕ) → Bool → Runtime → Reply ℕ
unfolding is_valid_instance starts_with_slash find_text intern
string_to_path instance none path_out r =
    if not (is_valid_instance instance) then fail handle_invalid r else fail path_format_invalid r
string_to_path instance (some text) path_out r =
    if not (is_valid_instance instance)
    then fail handle_invalid r
    else if not path_out || not (starts_with_slash text)
    then fail path_format_invalid r
    else intern (find_text r.paths text) text r

abbrev pub k_unknown_path : List ℕ
k_unknown_path = codes "/axrb/unknown"

-- With the terminator.
abbrev pub k_unknown_path_size : ℕ
k_unknown_path_size = 14

-- What goes through `bufferCountOutput` and into `buffer`; the flags say which is not null.
unfoldable pub path_to_string : Handle → ℕ → ℕ → Bool → Bool → XrResult × Option ℕ × Option (List ℕ)
unfolding is_valid_instance
path_to_string instance path buffer_capacity_input count_out buffer_out =
    let count = if count_out then some k_unknown_path_size else none in
    if not (is_valid_instance instance)
    then (handle_invalid, none, none)
    else if path == null_path
    then (path_invalid, none, none)
    else if not buffer_out
    then (success, count, none)
    else if ltb buffer_capacity_input k_unknown_path_size
    then (validation_failure, count, none)
    else (success, count, some (k_unknown_path ++ 0 ∷ []))
