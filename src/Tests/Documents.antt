-- ===== src/Tests/Documents.antt =====
-- The theorems on the files of src/api.rs, applied to small documents.
use Prim.Native.String.{String}
use hotshot_query_service.Prelude.{ℕ, none, some, [], ◌∷◌, ok, ◌≡◌, refl}
use hotshot_query_service.ApiFiles.{Framework, load_api, load_base}
use hotshot_query_service.ApiFiles.Loaded.{load_api-find}
use hotshot_query_service.ApiFiles.Merge.{find-merge_toml}
use hotshot_query_service.ApiFiles.Toml.{
  Value, plain, table, end, entry, get, upsert, merge_toml, member, find, IsDocument,
}

-- Values are numbers, a file has one table and the API is its document.
abbrev files : Framework ℕ
files = record {
  FilePath = ℕ;
  Bytes = ℕ;
  IoError = String;
  EncodingError = String;
  TomlError = String;
  read = λ path. ok path;
  from_utf8 = λ bytes. ok "text";
  from_str = λ string. ok (table (entry "route" (table (entry "get" (plain 1) end)) end));
  io_text = λ e. e;
  encoding_text = λ e. e;
  toml_text = λ e. e;
  Api = Value ℕ;
  ApiError = String;
  cannot_read_toml = λ reason. reason;
  new_api = λ doc. ok doc;
}

abbrev routes : Value ℕ
routes = table (entry "route" (table (entry "get" (plain 1) end)) end)

-- It has a setting of its own for a route that is there, and one more route.
abbrev extension : Value ℕ
extension = table (entry "route" (table (entry "get" (plain 2) (entry "put" (plain 3) end))) end)

extension-IsDocument : IsDocument extension
unfolding get
extension-IsDocument = (refl, (refl, tt, (refl, tt, tt)), tt)

find-merge_toml_example :
    find (merge_toml routes extension) ("route" ∷ [])
    ≡ some (table (entry "get" (plain 1) (entry "put" (plain 3) end)))
unfolding find member get merge_toml upsert
find-merge_toml_example =
    find-merge_toml ("route" ∷ []) routes extension {w = table (entry "get" (plain 1) end)}
      extension-IsDocument refl

load_api-find_example :
    (doc : Value ℕ) × (load_api files none "text" (extension ∷ []) ≡ ok doc)
    × (find doc ("route" ∷ "get" ∷ []) ≡ some (plain 1))
unfolding load_base find member get
load_api-find_example =
    load_api-find files none "text" (extension ∷ []) ("route" ∷ "get" ∷ []) {base = routes} {l = 1}
      refl (extension-IsDocument, tt) refl
