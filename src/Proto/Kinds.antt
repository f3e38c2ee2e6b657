-- ===== src/Proto/Kinds.antt =====
-- The descriptors of the protocol headers: the structures that start with `bLength`.
use no2usb.Base.{ℕ}
use no2usb.Proto.Layout.{Struct}
use no2usb.Proto.Usb.{
  desc_hdr, desc_hdr2, dev_desc, conf_desc, str_desc, intf_desc, ep_desc, cc_ep_desc,
  intf_assoc_desc, bos_desc, bos_plat_cap_hdr, hid_hid_desc, dfu_func_desc,
}
use no2usb.Proto.Ac.{
  ac_ac_hdr_desc, ac_ac_input_desc, ac_ac_output_desc, ac_ac_mixer_desc, ac_ac_selector_desc,
  ac_ac_feature_desc, ac_ac_processing_common_desc, ac_ac_extension_desc,
}
use no2usb.Proto.AcStreams.{
  ac_as_general_desc, ac_as_fmt_type1_desc, ac_ms_hdr_desc, ac_ms_in_jack_desc, ac_ms_out_jack_desc,
  ac_ms_elem_desc, ac_as_ep_general_desc, ac_ms_ep_general_desc,
}
use no2usb.Proto.Vc.{
  vc_vc_hdr_desc, vc_vc_input_desc, vc_vc_output_desc, vc_vc_camera_desc, vc_vc_selector_desc,
  vc_vc_processing_desc, vc_vc_extension_desc,
}
use no2usb.Proto.VcStreams.{
  vc_vs_input_hdr_desc, vc_vs_output_hdr_desc, vc_vs_fmt_uncompressed_desc,
  vc_vs_frame_uncompressed_desc, vc_vs_frame_uncompressed_desc_def, vc_ep_interrupt_desc,
}
use no2usb.Proto.Cdc.{
  cdc_hdr_desc, cdc_call_mgmt_desc, cdc_acm_desc, cdc_dlm_desc, cdc_union_desc,
  cdc_country_sel_desc,
}

pub data DescStruct : Type 0 where
  hdr hdr2 dev conf intf ep cc_ep intf_assoc bos bos_plat_cap dfu_func : DescStruct
  str hid_hid : ℕ → DescStruct
  ac_ac_hdr ac_ac_selector ac_ac_feature : ℕ → DescStruct
  ac_ac_input ac_ac_output : DescStruct
  ac_ac_mixer ac_ac_processing_common ac_ac_extension : ℕ → ℕ → DescStruct
  ac_as_general ac_ms_hdr ac_ms_in_jack ac_as_ep_general : DescStruct
  ac_as_fmt_type1 ac_ms_out_jack ac_ms_elem ac_ms_ep_general : ℕ → DescStruct
  vc_vc_hdr vc_vc_camera vc_vc_selector vc_vc_processing : ℕ → DescStruct
  vc_vc_input vc_vc_output : DescStruct
  vc_vc_extension : ℕ → ℕ → DescStruct
  vc_vs_input_hdr vc_vs_output_hdr vc_vs_frame_uncompressed_def : ℕ → DescStruct
  vc_vs_fmt_uncompressed vc_vs_frame_uncompressed vc_ep_interrupt : DescStruct
  cdc_hdr cdc_call_mgmt cdc_acm cdc_dlm : DescStruct
  cdc_union cdc_country_sel : ℕ → DescStruct

unfoldable pub layout : DescStruct → Struct
unfolding desc_hdr desc_hdr2 dev_desc conf_desc str_desc intf_desc ep_desc cc_ep_desc
    intf_assoc_desc bos_desc bos_plat_cap_hdr hid_hid_desc dfu_func_desc ac_ac_hdr_desc
    ac_ac_input_desc ac_ac_output_desc ac_ac_mixer_desc ac_ac_selector_desc ac_ac_feature_desc
    ac_ac_processing_common_desc ac_ac_extension_desc ac_as_general_desc ac_as_fmt_type1_desc
    ac_ms_hdr_desc ac_ms_in_jack_desc ac_ms_out_jack_desc ac_ms_elem_desc ac_as_ep_general_desc
    ac_ms_ep_general_desc vc_vc_hdr_desc vc_vc_input_desc vc_vc_output_desc vc_vc_camera_desc
    vc_vc_selector_desc vc_vc_processing_desc vc_vc_extension_desc vc_vs_input_hdr_desc
    vc_vs_output_hdr_desc vc_vs_fmt_uncompressed_desc vc_vs_frame_uncompressed_desc
    vc_vs_frame_uncompressed_desc_def vc_ep_interrupt_desc cdc_hdr_desc cdc_call_mgmt_desc
    cdc_acm_desc cdc_dlm_desc cdc_union_desc cdc_country_sel_desc
layout hdr = desc_hdr
layout hdr2 = desc_hdr2
layout dev = dev_desc
layout conf = conf_desc
layout (str n) = str_desc n
layout intf = intf_desc
layout ep = ep_desc
layout cc_ep = cc_ep_desc
layout intf_assoc = intf_assoc_desc
layout bos = bos_desc
layout bos_plat_cap = bos_plat_cap_hdr
layout (hid_hid n) = hid_hid_desc n
layout dfu_func = dfu_func_desc
layout (ac_ac_hdr n) = ac_ac_hdr_desc n
layout ac_ac_input = ac_ac_input_desc
layout ac_ac_output = ac_ac_output_desc
layout (ac_ac_mixer n m) = ac_ac_mixer_desc n m
layout (ac_ac_selector n) = ac_ac_selector_desc n
layout (ac_ac_feature n) = ac_ac_feature_desc n
layout (ac_ac_processing_common n m) = ac_ac_processing_common_desc n m
layout (ac_ac_extension n m) = ac_ac_extension_desc n m
layout ac_as_general = ac_as_general_desc
layout (ac_as_fmt_type1 n) = ac_as_fmt_type1_desc n
layout ac_ms_hdr = ac_ms_hdr_desc
layout ac_ms_in_jack = ac_ms_in_jack_desc
layout (ac_ms_out_jack n) = ac_ms_out_jack_desc n
layout (ac_ms_elem n) = ac_ms_elem_desc n
layout ac_as_ep_general = ac_as_ep_general_desc
layout (ac_ms_ep_general n) = ac_ms_ep_general_desc n
layout (vc_vc_hdr n) = vc_vc_hdr_desc n
layout vc_vc_input = vc_vc_input_desc
layout vc_vc_output = vc_vc_output_desc
layout (vc_vc_camera n) = vc_vc_camera_desc n
layout (vc_vc_selector n) = vc_vc_selector_desc n
layout (vc_vc_processing n) = vc_vc_processing_desc n
layout (vc_vc_extension n m) = vc_vc_extension_desc n m
layout (vc_vs_input_hdr n) = vc_vs_input_hdr_desc n
layout (vc_vs_output_hdr n) = vc_vs_output_hdr_desc n
layout vc_vs_fmt_uncompressed = vc_vs_fmt_uncompressed_desc
layout vc_vs_frame_uncompressed = vc_vs_frame_uncompressed_desc
layout (vc_vs_frame_uncompressed_def n) = vc_vs_frame_uncompressed_desc_def n
layout vc_ep_interrupt = vc_ep_interrupt_desc
layout cdc_hdr = cdc_hdr_desc
layout cdc_call_mgmt = cdc_call_mgmt_desc
layout cdc_acm = cdc_acm_desc
layout cdc_dlm = cdc_dlm_desc
layout (cdc_union n) = cdc_union_desc n
layout (cdc_country_sel n) = cdc_country_sel_desc n
