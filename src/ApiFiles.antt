-- ===== src/ApiFiles.antt =====
-- src/api.rs: the files that define the routes of an API. The documents and the way one is merged
-- into another (Toml), what a merge keeps and adds (Merge), and the document that an API is made
-- of (Loaded).
pub mod Loaded
pub mod Merge
pub mod Router
pub mod Toml
use Prim.Native.String.{String}
use hotshot_query_service.Prelude.{
  Option, none, some, List, [], ◌∷◌, Result, ok, err, ◌>>=◌, map_err,
}
use hotshot_query_service.ApiFiles.Toml.{Value, merge_toml}

-- The file system, the standard library's texts, the parser of the toml crate and the framework.
-- Values of `L` are the TOML values that are no tables.
pub record Framework (L : Type 0) : Type 1 where
  pub FilePath : Type 0
  pub Bytes : Type 0
  pub IoError : Type 0
  pub EncodingError : Type 0
  pub TomlError : Type 0
  pub read : FilePath → Result IoError Bytes
  pub from_utf8 : Bytes → Result EncodingError String
  pub from_str : String → Result TomlError (Value L)
  pub io_text : IoError → String
  pub encoding_text : EncodingError → String
  pub toml_text : TomlError → String
  pub Api : Type 0
  pub ApiError : Type 0
  pub cannot_read_toml : String → ApiError
  pub new_api : Value L → Result ApiError Api

module _ {L : Type 0} (F : Framework L) where
  -- `toml::from_str(string).map_err(..)`
  unfoldable pub parse_toml : String → Result F.ApiError (Value L)
  parse_toml string = map_err (λ e. F.cannot_read_toml (F.toml_text e)) (F.from_str string)

  unfoldable pub load_toml : F.FilePath → Result F.ApiError (Value L)
  unfolding parse_toml
  load_toml path = do
    bytes ← map_err (λ e. F.cannot_read_toml (F.io_text e)) (F.read path)
    string ← map_err (λ e. F.cannot_read_toml (F.encoding_text e)) (F.from_utf8 bytes)
    parse_toml string

  -- The document that the extensions are merged into.
  unfoldable pub load_base : Option F.FilePath → String → Result F.ApiError (Value L)
  unfolding load_toml parse_toml
  load_base (some path) default = load_toml path
  load_base none default = parse_toml default

  -- The loop over the extensions.
  unfoldable pub merge_extensions : Value L → List (Value L) → Value L
  merge_extensions toml [] = toml
  merge_extensions toml (extension ∷ extensions) =
      merge_extensions (merge_toml toml extension) extensions

  unfoldable pub load_api : Option F.FilePath → String → List (Value L) → Result F.ApiError F.Api
  unfolding load_base merge_extensions
  load_api path default extensions = do
    toml ← load_base path default
    F.new_api (merge_extensions toml extensions)
