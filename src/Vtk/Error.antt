-- ===== src/Vtk/Error.antt =====
-- The exceptions of the VTK reader that the modelled functions throw: std::overflow_error, and
-- cae::FileFormatError by its message.
pub data Error : Type 0 where
  overflow : Error
  not_divisible zero_block_size : Error
  not_quartet_aligned invalid_padding data_after_padding embedded_whitespace : Error
  invalid_character exceeds_request padding_before_final count_mismatch : Error
  source_range decoded_range open_failed seek_failed short_read not_triple_aligned
        triple_not_aligned :
      Error
  unexpected_segment_count segment_index target_size decompress_failed : Error
  bad_shape : Error
  not_aligned fewer_values more_values storage_kind : Error
  invalid_argument out_of_range signed_overflow out_of_fuel : Error
  tell_failed string_header string_payload cannot_skip platform_width ascii_range : Error
  packed_header expected_offsets expected_connectivity expected_lookup_table : Error
  unsupported_dataset not_legacy missing_mode not_dataset names_exhausted : Error
  no_regular_file : Error
