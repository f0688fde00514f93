-- ===== src/Vtk/Legacy/File.antt =====
-- LegacyParser.cpp: LegacyParser::CanParse and LegacyParser::Parse, with StartsWith and
-- ReadFilePrefix of ParserUtils.cpp.
use cae_openusd_plugins.Prelude.{
  suc, Bool, not, ◌||◌, ◌&&◌, Option, none, some, [], ◌∷◌, Bytes, length, take, drop, same, ltb,
  ◌==◌, if◌then◌else◌,
}
use cae_openusd_plugins.Prelude.Chars.{codes}
use cae_openusd_plugins.Prelude.Int.{ℤ}
use cae_openusd_plugins.Prelude.Result.{Result, ok, err}
use cae_openusd_plugins.Stream.{Stream, open_stream, read}
use cae_openusd_plugins.Vtk.Error.{Error, not_legacy, missing_mode, not_dataset, open_failed}
use cae_openusd_plugins.Vtk.Action.{Action, pure, lift, gets, act, ensure, ◌>>=◌, ◌>>◌}
use cae_openusd_plugins.Vtk.Types.{big_endian}
use cae_openusd_plugins.Vtk.Tokens.{is_token, to_lower_token}
use cae_openusd_plugins.Vtk.DatasetSpec.{DatasetKind, DatasetSpec, new_dataset}
use cae_openusd_plugins.Vtk.Scan.{next_token, get_line, drop_return, stoi}
use cae_openusd_plugins.Vtk.Legacy.{Settings, LegacyTokenParser}
use cae_openusd_plugins.Vtk.Legacy.Parse.{parse_dataset_kind, parse_tokens, new_parser}

-- `StartsWith`
unfoldable pub starts_with : Bytes → Bytes → Bool
starts_with text prefix =
    not (ltb (length text) (length prefix)) && same (take (length prefix) text) prefix

-- `ReadFilePrefix`; a file that does not open has no bytes.
unfoldable pub read_file_prefix : Option Bytes → Bytes
read_file_prefix none = []
read_file_prefix (some content) = (read 4096 (open_stream content)).0

-- `LegacyParser::CanParse`
unfoldable pub can_parse : Option Bytes → Bool
can_parse content =
    let prefix = read_file_prefix content in
    starts_with prefix (codes "# vtk DataFile") || starts_with prefix (codes "# vtk")

abbrev pub version_prefix : Bytes
version_prefix = codes "# vtk DataFile Version "

-- `versionText.substr(0, versionText.find('.'))`
unfoldable pub before_dot : Bytes → Bytes
before_dot [] = []
before_dot (c ∷ text) = let later = before_dot text in if c == b'.' then [] else c ∷ later

-- A line, and whether there was one.
abbrev pub read_line : Action Stream (Bytes × Bool)
read_line = do line ← act get_line; failed ← gets (λ s. s.fail); pure (line, not failed)

pub record LegacyHeader : Type 0 where
  pub version_major : ℤ
  pub binary : Bool
  pub source_description : Bytes
  pub kind : DatasetKind

-- The lines and the tokens in front of the sections.
unfoldable pub read_header : Settings → Action Stream LegacyHeader
read_header settings = do
  first ← read_line
  ensure (first.1 && starts_with first.0 version_prefix) not_legacy
  version_major ← lift (stoi (before_dot (drop (length version_prefix) first.0)))
  description ← read_line
  mode ← read_line
  ensure mode.1 missing_mode
  token ← next_token
  ensure (is_token (to_lower_token token) "dataset") not_dataset
  dataset_type ← next_token
  kind ← lift (parse_dataset_kind (to_lower_token dataset_type))
  pure (record {
    version_major = version_major;
    binary = is_token (to_lower_token (settings.trim mode.0)) "binary";
    source_description = if description.1 then drop_return description.0 else description.0;
    kind = kind;
  })

abbrev pub settings_for : Settings → LegacyHeader → Settings
settings_for settings header = record settings {
  version_major = header.version_major;
  binary = header.binary;
}

abbrev pub dataset_for : Settings → LegacyHeader → DatasetSpec
dataset_for settings header =
    new_dataset settings.file_path big_endian header.source_description header.kind

abbrev pub dataset_of : Result Error (Unit {0} × LegacyTokenParser) → Result Error DatasetSpec
dataset_of (ok (u, p)) = ok p.dataset
dataset_of (err e) = err e

-- The sections behind a header. Each one takes a byte of the file, whose length is the fuel.
unfoldable pub parse_sections : Settings → LegacyHeader → Stream → Result Error DatasetSpec
parse_sections settings header input = dataset_of (
    parse_tokens (settings_for settings header) (suc (length input.content))
      (new_parser input (dataset_for settings header)))

abbrev pub parse_behind : Settings → Result Error (LegacyHeader × Stream) → Result Error DatasetSpec
parse_behind settings (ok (header, input)) = parse_sections settings header input
parse_behind settings (err e) = err e

-- `LegacyParser::Parse`; the settings have the file's path and what the parse rests on.
unfoldable pub parse_legacy : Settings → Option Bytes → Result Error DatasetSpec
parse_legacy settings none = err open_failed
parse_legacy settings (some content) =
    parse_behind settings (read_header settings (open_stream content))
