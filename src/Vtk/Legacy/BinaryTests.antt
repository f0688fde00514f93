-- ===== src/Vtk/Legacy/BinaryTests.antt =====
-- A small binary file, parsed and read.
use cae_openusd_plugins.Prelude.{
  ◌*◌, ◌≡◌, refl, true, Bytes, ◌++◌, some, [], ◌∷◌, length, take, drop, get_elem?, arith,
}
use cae_openusd_plugins.Prelude.Chars.{codes}
use cae_openusd_plugins.Prelude.Int.{pos, pos_part}
use cae_openusd_plugins.Prelude.Result.{ok, err}
use cae_openusd_plugins.Vtk.Error.{bad_shape}
use cae_openusd_plugins.Vtk.Types.{big_endian, float32, scalar_byte_size}
use cae_openusd_plugins.Vtk.Tokens.{reinterpreted_vector}
use cae_openusd_plugins.Vtk.Range.{task_count_for_bytes}
use cae_openusd_plugins.Vtk.Segment.{FileHandle, PayloadSegmentSpec, normalize}
use cae_openusd_plugins.Vtk.Payload.{read_direct}
use cae_openusd_plugins.Vtk.Tests.{last_first, last_first-IsOrder}
use cae_openusd_plugins.Vtk.DatasetSpec.{DatasetSpec, ArraySpec, unassociated, points}
use cae_openusd_plugins.Vtk.Legacy.{payload_of, segment_at, request_of}
use cae_openusd_plugins.Vtk.Legacy.File.{parse_legacy}
use cae_openusd_plugins.Vtk.Legacy.Sound.Read.{read_direct-parse_legacy}
use cae_openusd_plugins.Vtk.Legacy.Tests.{settings, line, dataset_or_none, small_dataset}

abbrev binary_file : Bytes
binary_file =
    line (codes "# vtk DataFile Version 3.0")
    ++ (line (codes "a title")
        ++ (line (codes "BINARY")
            ++ (line (codes "DATASET UNSTRUCTURED_GRID")
                ++ (line (codes "POINTS 1 float")
                    ++ 1 ∷ 2 ∷ 3 ∷ 4 ∷ 5 ∷ 6 ∷ 7 ∷ 8 ∷ 9 ∷ 8 ∷ 7 ∷ 6 ∷ []))))

binary_dataset : DatasetSpec
unfolding small_dataset
binary_dataset = dataset_or_none (parse_legacy settings (some binary_file))

binary_file_parses : parse_legacy settings (some binary_file) ≡ ok binary_dataset
unfolding binary_dataset
binary_file_parses = refl

abbrev segment : PayloadSegmentSpec
segment = segment_at 83 12

abbrev points_array : ArraySpec
points_array = record {
  source_name = codes "points";
  array_name = codes "points";
  scalar_type = float32;
  tuple_count = 1;
  component_count = pos 3;
  association = unassociated;
  role = points;
  evaluation_kind = reinterpreted_vector;
  payload = payload_of true (segment ∷ []) (request_of float32 3);
  source_scalar_token = codes "float";
  debug_context = codes "a.vtk array='points' offset=83";
}

first_array : get_elem? binary_dataset.arrays 0 ≡ some points_array
unfolding binary_dataset
first_array = refl

abbrev handle : FileHandle
handle = record {
  content = some binary_file;
  byte_order = big_endian;
  io_threads = pos 4;
  order = last_first;
  limit = 8;
  host_little = true;
}

abbrev target : Bytes
target = 0 ∷ 0 ∷ 0 ∷ 0 ∷ 0 ∷ 0 ∷ 0 ∷ 0 ∷ 0 ∷ 0 ∷ 0 ∷ 0 ∷ []

read_direct-parse_legacy_example :
    (12 ≡ 1 * pos_part (pos 3) * scalar_byte_size float32)
    × (read_direct
          (λ t bytes. err bad_shape)
          (λ z bytes n. some bytes)
          handle
          points_array.payload.source
          points_array.payload.request
          target
        ≡ normalize handle (take (length target) (drop 83 binary_file)) float32)
unfolding task_count_for_bytes
read_direct-parse_legacy_example =
    read_direct-parse_legacy (λ t bytes. err bad_shape) (λ z bytes n. some bytes) settings
      binary_file binary_dataset 0 points_array segment handle target binary_file_parses first_array
      refl refl refl last_first-IsOrder (omega arith) (omega arith) refl (omega arith)
