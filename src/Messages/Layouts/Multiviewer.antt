-- ===== src/Messages/Layouts/Multiviewer.antt =====
-- Layouts of atemwire/messages/multiviewer.py.
use bmdwire.Prelude.{none, some, [], ◌∷◌}
use bmdwire.Messages.{Kind, Layout, field}

-- `MultiviewerInputField`
abbrev pub multiviewer_input_field : Layout
multiviewer_input_field = record {
  code = "MvIn";
  size = 0;
  mask_at = none;
  mask_type = Kind.u8;
  fields =
      field "index" Kind.u8 0 none 1
      ∷ field "window" Kind.u8 1 none 1
      ∷ field "source" Kind.u16 2 none 1
      ∷ field "vu" Kind.boolean 4 none 1
      ∷ field "safearea" Kind.boolean 5 none 1
      ∷ [];
}

-- `MultiviewerVuField`
abbrev pub multiviewer_vu_field : Layout
multiviewer_vu_field = record {
  code = "VuMC";
  size = 0;
  mask_at = none;
  mask_type = Kind.u8;
  fields =
      field "index" Kind.u8 0 none 1
      ∷ field "window" Kind.u8 1 none 1
      ∷ field "enabled" Kind.boolean 2 none 1
      ∷ [];
}

-- `MultiviewerSafeAreaField`
abbrev pub multiviewer_safe_area_field : Layout
multiviewer_safe_area_field = record {
  code = "SaMw";
  size = 0;
  mask_at = none;
  mask_type = Kind.u8;
  fields =
      field "index" Kind.u8 0 none 1
      ∷ field "window" Kind.u8 1 none 1
      ∷ field "enabled" Kind.boolean 2 none 1
      ∷ [];
}

-- `MultiviewInputCommand`
abbrev pub multiview_input_command : Layout
multiview_input_command = record {
  code = "CMvI";
  size = 4;
  mask_at = none;
  mask_type = Kind.u8;
  fields =
      field "index" Kind.u8 0 none 1
      ∷ field "window" Kind.u8 1 none 1
      ∷ field "source" Kind.u16 2 none 1
      ∷ [];
}

-- `MultiviewPropertiesCommand`
abbrev pub multiview_properties_command : Layout
multiview_properties_command = record {
  code = "CMvP";
  size = 4;
  mask_at = some 0;
  mask_type = Kind.u8;
  fields =
      field "index" Kind.u8 1 none 1
      ∷ field "layout" Kind.u8 2 (some 0) 1
      ∷ field "swap" Kind.boolean 3 (some 1) 1
      ∷ [];
}
