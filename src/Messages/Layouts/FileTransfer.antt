-- ===== src/Messages/Layouts/FileTransfer.antt =====
-- Layouts of atemwire/messages/file_transfer.py.
use bmdwire.Prelude.{none, [], ◌∷◌}
use bmdwire.Messages.{Kind, Layout, field}

-- `TransferDownloadRequestCommand`
abbrev pub transfer_download_request_command : Layout
transfer_download_request_command = record {
  code = "FTSU";
  size = 12;
  mask_at = none;
  mask_type = Kind.u8;
  fields =
      field "transfer" Kind.u16 0 none 1
      ∷ field "store" Kind.u16 2 none 1
      ∷ field "slot" Kind.u32 4 none 1
      ∷ field "_u1" Kind.u8 8 none 1
      ∷ field "_u2" Kind.u8 9 none 1
      ∷ field "_u3" Kind.u8 10 none 1
      ∷ field "_u4" Kind.u8 11 none 1
      ∷ [];
}

-- `TransferUploadRequestCommand`
abbrev pub transfer_upload_request_command : Layout
transfer_upload_request_command = record {
  code = "FTSD";
  size = 16;
  mask_at = none;
  mask_type = Kind.u8;
  fields =
      field "transfer" Kind.u16 0 none 1
      ∷ field "store" Kind.u16 2 none 1
      ∷ field "slot" Kind.u16 6 none 1
      ∷ field "length" Kind.u32 8 none 1
      ∷ field "mode" Kind.u16 12 none 1
      ∷ [];
}

-- `TransferAckCommand`
abbrev pub transfer_ack_command : Layout
transfer_ack_command = record {
  code = "FTUA";
  size = 4;
  mask_at = none;
  mask_type = Kind.u8;
  fields = field "transfer" Kind.u16 0 none 1 ∷ field "slot" Kind.u16 2 none 1 ∷ [];
}

-- `FileTransferErrorField`
abbrev pub file_transfer_error_field : Layout
file_transfer_error_field = record {
  code = "FTDE";
  size = 0;
  mask_at = none;
  mask_type = Kind.u8;
  fields = field "transfer" Kind.u16 0 none 1 ∷ field "status" Kind.u8 2 none 1 ∷ [];
}

-- `FileTransferDataCompleteField`
abbrev pub file_transfer_data_complete_field : Layout
file_transfer_data_complete_field = record {
  code = "FTDC";
  size = 0;
  mask_at = none;
  mask_type = Kind.u8;
  fields =
      field "transfer" Kind.u16 0 none 1
      ∷ field "u1" Kind.u8 2 none 1
      ∷ field "u2" Kind.u8 3 none 1
      ∷ [];
}

-- `FileTransferContinueDataField`
abbrev pub file_transfer_continue_data_field : Layout
file_transfer_continue_data_field = record {
  code = "FTCD";
  size = 0;
  mask_at = none;
  mask_type = Kind.u8;
  fields =
      field "transfer" Kind.u16 0 none 1
      ∷ field "size" Kind.u16 6 none 1
      ∷ field "count" Kind.u16 8 none 1
      ∷ [];
}
