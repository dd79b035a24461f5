-- ===== src/Llrp/ParamTypes.antt =====
-- The parameter types of pkg/llrp/params.go.
use device_rfid_llrp_go.Prelude.{ℕ}

abbrev pub param_antenna_id : ℕ
param_antenna_id = 1

abbrev pub param_first_seen_utc : ℕ
param_first_seen_utc = 2

abbrev pub param_first_seen_uptime : ℕ
param_first_seen_uptime = 3

abbrev pub param_last_seen_utc : ℕ
param_last_seen_utc = 4

abbrev pub param_last_seen_uptime : ℕ
param_last_seen_uptime = 5

abbrev pub param_peak_rssi : ℕ
param_peak_rssi = 6

abbrev pub param_channel_index : ℕ
param_channel_index = 7

abbrev pub param_tag_seen_count : ℕ
param_tag_seen_count = 8

abbrev pub param_ro_spec_id : ℕ
param_ro_spec_id = 9

abbrev pub param_inventory_parameter_spec_id : ℕ
param_inventory_parameter_spec_id = 10

abbrev pub param_c1g2_crc : ℕ
param_c1g2_crc = 11

abbrev pub param_c1g2_pc : ℕ
param_c1g2_pc = 12

abbrev pub param_epc96 : ℕ
param_epc96 = 13

abbrev pub param_spec_index : ℕ
param_spec_index = 14

abbrev pub param_client_request_op_spec_result : ℕ
param_client_request_op_spec_result = 15

abbrev pub param_access_spec_id : ℕ
param_access_spec_id = 16

abbrev pub param_op_spec_id : ℕ
param_op_spec_id = 17

abbrev pub param_c1g2_singulation_details : ℕ
param_c1g2_singulation_details = 18

abbrev pub param_c1g2_xpcw1 : ℕ
param_c1g2_xpcw1 = 19

abbrev pub param_c1g2_xpcw2 : ℕ
param_c1g2_xpcw2 = 20

abbrev pub param_utc_timestamp : ℕ
param_utc_timestamp = 128

abbrev pub param_uptime : ℕ
param_uptime = 129

abbrev pub param_general_device_capabilities : ℕ
param_general_device_capabilities = 137

abbrev pub param_receive_sensitivity_table_entry : ℕ
param_receive_sensitivity_table_entry = 139

abbrev pub param_per_antenna_air_protocol : ℕ
param_per_antenna_air_protocol = 140

abbrev pub param_gpio_capabilities : ℕ
param_gpio_capabilities = 141

abbrev pub param_llrp_capabilities : ℕ
param_llrp_capabilities = 142

abbrev pub param_regulatory_capabilities : ℕ
param_regulatory_capabilities = 143

abbrev pub param_uhf_band_capabilities : ℕ
param_uhf_band_capabilities = 144

abbrev pub param_transmit_power_level_table_entry : ℕ
param_transmit_power_level_table_entry = 145

abbrev pub param_frequency_information : ℕ
param_frequency_information = 146

abbrev pub param_frequency_hop_table : ℕ
param_frequency_hop_table = 147

abbrev pub param_fixed_frequency_table : ℕ
param_fixed_frequency_table = 148

abbrev pub param_per_antenna_receive_sensitivity_range : ℕ
param_per_antenna_receive_sensitivity_range = 149

abbrev pub param_ro_spec : ℕ
param_ro_spec = 177

abbrev pub param_ro_boundary_spec : ℕ
param_ro_boundary_spec = 178

abbrev pub param_ro_spec_start_trigger : ℕ
param_ro_spec_start_trigger = 179

abbrev pub param_periodic_trigger_value : ℕ
param_periodic_trigger_value = 180

abbrev pub param_gpi_trigger_value : ℕ
param_gpi_trigger_value = 181

abbrev pub param_ro_spec_stop_trigger : ℕ
param_ro_spec_stop_trigger = 182

abbrev pub param_ai_spec : ℕ
param_ai_spec = 183

abbrev pub param_ai_spec_stop_trigger : ℕ
param_ai_spec_stop_trigger = 184

abbrev pub param_tag_observation_trigger : ℕ
param_tag_observation_trigger = 185

abbrev pub param_inventory_parameter_spec : ℕ
param_inventory_parameter_spec = 186

abbrev pub param_rf_survey_spec : ℕ
param_rf_survey_spec = 187

abbrev pub param_rf_survey_spec_stop_trigger : ℕ
param_rf_survey_spec_stop_trigger = 188

abbrev pub param_access_spec : ℕ
param_access_spec = 207

abbrev pub param_access_spec_stop_trigger : ℕ
param_access_spec_stop_trigger = 208

abbrev pub param_access_command : ℕ
param_access_command = 209

abbrev pub param_client_request_op_spec : ℕ
param_client_request_op_spec = 210

abbrev pub param_client_request_response : ℕ
param_client_request_response = 211

abbrev pub param_llrp_configuration_state_value : ℕ
param_llrp_configuration_state_value = 217

abbrev pub param_identification : ℕ
param_identification = 218

abbrev pub param_gpo_write_data : ℕ
param_gpo_write_data = 219

abbrev pub param_keep_alive_spec : ℕ
param_keep_alive_spec = 220

abbrev pub param_antenna_properties : ℕ
param_antenna_properties = 221

abbrev pub param_antenna_configuration : ℕ
param_antenna_configuration = 222

abbrev pub param_rf_receiver : ℕ
param_rf_receiver = 223

abbrev pub param_rf_transmitter : ℕ
param_rf_transmitter = 224

abbrev pub param_gpi_port_current_state : ℕ
param_gpi_port_current_state = 225

abbrev pub param_events_and_reports : ℕ
param_events_and_reports = 226

abbrev pub param_ro_report_spec : ℕ
param_ro_report_spec = 237

abbrev pub param_tag_report_content_selector : ℕ
param_tag_report_content_selector = 238

abbrev pub param_access_report_spec : ℕ
param_access_report_spec = 239

abbrev pub param_tag_report_data : ℕ
param_tag_report_data = 240

abbrev pub param_epc_data : ℕ
param_epc_data = 241

abbrev pub param_rf_survey_report_data : ℕ
param_rf_survey_report_data = 242

abbrev pub param_frequency_rssi_level_entry : ℕ
param_frequency_rssi_level_entry = 243

abbrev pub param_reader_event_notification_spec : ℕ
param_reader_event_notification_spec = 244

abbrev pub param_event_notification_state : ℕ
param_event_notification_state = 245

abbrev pub param_reader_event_notification_data : ℕ
param_reader_event_notification_data = 246

abbrev pub param_hopping_event : ℕ
param_hopping_event = 247

abbrev pub param_gpi_event : ℕ
param_gpi_event = 248

abbrev pub param_ro_spec_event : ℕ
param_ro_spec_event = 249

abbrev pub param_report_buffer_level_warning_event : ℕ
param_report_buffer_level_warning_event = 250

abbrev pub param_report_buffer_overflow_error_event : ℕ
param_report_buffer_overflow_error_event = 251

abbrev pub param_reader_exception_event : ℕ
param_reader_exception_event = 252

abbrev pub param_rf_survey_event : ℕ
param_rf_survey_event = 253

abbrev pub param_ai_spec_event : ℕ
param_ai_spec_event = 254

abbrev pub param_antenna_event : ℕ
param_antenna_event = 255

abbrev pub param_connection_attempt_event : ℕ
param_connection_attempt_event = 256

abbrev pub param_connection_close_event : ℕ
param_connection_close_event = 257

abbrev pub param_c1g2_llrp_capabilities : ℕ
param_c1g2_llrp_capabilities = 327

abbrev pub param_uhf_c1g2_rf_mode_table : ℕ
param_uhf_c1g2_rf_mode_table = 328

abbrev pub param_uhf_c1g2_rf_mode_table_entry : ℕ
param_uhf_c1g2_rf_mode_table_entry = 329

abbrev pub param_c1g2_inventory_command : ℕ
param_c1g2_inventory_command = 330

abbrev pub param_c1g2_filter : ℕ
param_c1g2_filter = 331

abbrev pub param_c1g2_tag_inventory_mask : ℕ
param_c1g2_tag_inventory_mask = 332

abbrev pub param_c1g2_tag_inventory_state_aware_filter_action : ℕ
param_c1g2_tag_inventory_state_aware_filter_action = 333

abbrev pub param_c1g2_tag_inventory_state_unaware_filter_action : ℕ
param_c1g2_tag_inventory_state_unaware_filter_action = 334

abbrev pub param_c1g2_rf_control : ℕ
param_c1g2_rf_control = 335

abbrev pub param_c1g2_singulation_control : ℕ
param_c1g2_singulation_control = 336

abbrev pub param_c1g2_tag_inventory_state_aware_singulation_action : ℕ
param_c1g2_tag_inventory_state_aware_singulation_action = 337

abbrev pub param_c1g2_tag_spec : ℕ
param_c1g2_tag_spec = 338

abbrev pub param_c1g2_target_tag : ℕ
param_c1g2_target_tag = 339

abbrev pub param_c1g2_read : ℕ
param_c1g2_read = 341

abbrev pub param_c1g2_write : ℕ
param_c1g2_write = 342

abbrev pub param_c1g2_kill : ℕ
param_c1g2_kill = 343

abbrev pub param_c1g2_lock : ℕ
param_c1g2_lock = 344

abbrev pub param_c1g2_lock_payload : ℕ
param_c1g2_lock_payload = 345

abbrev pub param_c1g2_block_erase : ℕ
param_c1g2_block_erase = 346

abbrev pub param_c1g2_block_write : ℕ
param_c1g2_block_write = 347

abbrev pub param_c1g2_epc_memory_selector : ℕ
param_c1g2_epc_memory_selector = 348

abbrev pub param_c1g2_read_op_spec_result : ℕ
param_c1g2_read_op_spec_result = 349

abbrev pub param_c1g2_write_op_spec_result : ℕ
param_c1g2_write_op_spec_result = 350

abbrev pub param_c1g2_kill_op_spec_result : ℕ
param_c1g2_kill_op_spec_result = 351

abbrev pub param_c1g2_lock_op_spec_result : ℕ
param_c1g2_lock_op_spec_result = 352

abbrev pub param_c1g2_block_erase_op_spec_result : ℕ
param_c1g2_block_erase_op_spec_result = 353

abbrev pub param_c1g2_block_write_op_spec_result : ℕ
param_c1g2_block_write_op_spec_result = 354

abbrev pub param_loop_spec : ℕ
param_loop_spec = 355

abbrev pub param_spec_loop_event : ℕ
param_spec_loop_event = 356

abbrev pub param_c1g2_recommission : ℕ
param_c1g2_recommission = 357

abbrev pub param_c1g2_block_permalock : ℕ
param_c1g2_block_permalock = 358

abbrev pub param_c1g2_get_block_permalock_status : ℕ
param_c1g2_get_block_permalock_status = 359

abbrev pub param_c1g2_recommission_op_spec_result : ℕ
param_c1g2_recommission_op_spec_result = 360

abbrev pub param_c1g2_block_permalock_op_spec_result : ℕ
param_c1g2_block_permalock_op_spec_result = 361

abbrev pub param_c1g2_get_block_permalock_status_op_spec_result : ℕ
param_c1g2_get_block_permalock_status_op_spec_result = 362

abbrev pub param_maximum_receive_sensitivity : ℕ
param_maximum_receive_sensitivity = 363

abbrev pub param_rf_survey_frequency_capabilities : ℕ
param_rf_survey_frequency_capabilities = 365

abbrev pub param_custom : ℕ
param_custom = 1023
