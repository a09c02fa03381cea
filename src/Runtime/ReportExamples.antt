-- ===== src/Runtime/ReportExamples.antt =====
-- The entry points that report and enumerate, evaluated.
use axrb.Common.{◌≡◌, ◌↔◌, refl, true, some, [], ◌∷◌}
use axrb.Xr.{Handle, success, validation_failure, make_version, head_mounted_display}
use axrb.Xr.StructureType.{
  type_system_get_info, type_action_create_info, type_action_state_boolean, type_action_state_float,
  type_action_state_vector2f, type_action_state_pose,
}
use axrb.Runtime.{loaded, is_valid_instance, is_valid_action_set}
use axrb.Runtime.Path.{codes, same_text}
use axrb.Runtime.Action.{create_action}
use axrb.Pose.Client.{PoseClient, set_android_context}
use axrb.Runtime.System.{
  initialize_loader, StructSizes, NegotiateLoaderInfo, loader_info, SystemGetInfo, get_system,
}
use axrb.Runtime.Input.{
  get_action_state_boolean, get_action_state_float, get_action_state_vector2f,
  get_action_state_pose,
}
use axrb.Runtime.Calls.{run, creates_action}
use axrb.Runtime.Dispatch.{poll_event_fn, end_frame_fn, get_instance_proc_addr, find_function}
use axrb.Runtime.Reports.{about, action_states_lem}
use axrb.Runtime.Names.{name_of}
use axrb.Runtime.Names.Given.{get_instance_proc_addr_iff}

abbrev sizes : StructSizes
sizes = record { loader_info_size = 56; runtime_request_size = 48 }

abbrev loader : NegotiateLoaderInfo
loader = record {
  struct_type = loader_info;
  struct_version = 1;
  struct_size = 56;
  min_interface_version = 1;
  max_interface_version = 2;
  min_api_version = make_version 1 0 0;
  max_api_version = make_version 1 1 0;
}

abbrev headset : SystemGetInfo
headset = record { type = type_system_get_info; form_factor = head_mounted_display }

headset_given : (get_system Handle.instance_handle (some headset) true).1 ≡ some 1
unfolding get_system is_valid_instance
headset_given = refl

first_made :
    (create_action Handle.action_set_handle (some type_action_create_info) true loaded).1
    ≡ some (Handle.action_handle 0)
unfolding create_action is_valid_action_set loaded
first_made = refl

action_states_lem_example :
    let action = Handle.action_handle 0 in
    let r' =
      run
        (create_action Handle.action_set_handle (some type_action_create_info) true loaded).2
        (creates_action Handle.action_set_handle (some type_action_create_info) true ∷ []) in
    ((get_action_state_boolean Handle.session_handle
        (about action)
        (some type_action_state_boolean)
        9
        loaded).0
      ≡ validation_failure)
    × ((get_action_state_float Handle.session_handle
          (about action)
          (some type_action_state_float)
          9
          loaded).0
        ≡ validation_failure)
    × ((get_action_state_vector2f Handle.session_handle
          (about action)
          (some type_action_state_vector2f)
          9
          loaded).0
        ≡ validation_failure)
    × ((get_action_state_pose Handle.session_handle
          (about action)
          (some type_action_state_pose)
          loaded).0
        ≡ validation_failure)
    × (get_action_state_boolean Handle.session_handle
          (about action)
          (some type_action_state_boolean)
          9
          r'
        ≡ (
          success,
          some (record {
            current_state = 0;
            changed_since_last_sync = 0;
            last_change_time = 9;
            is_active = 1;
          }),
        ))
    × ((get_action_state_float Handle.session_handle
          (about action)
          (some type_action_state_float)
          9
          r').0
        ≡ success)
    × ((get_action_state_vector2f Handle.session_handle
          (about action)
          (some type_action_state_vector2f)
          9
          r').0
        ≡ success)
    × (get_action_state_pose Handle.session_handle (about action) (some type_action_state_pose) r'
        ≡ (success, some 1))
action_states_lem_example =
    action_states_lem Handle.action_set_handle (some type_action_create_info) true loaded
      (Handle.action_handle 0) 9
      (creates_action Handle.action_set_handle (some type_action_create_info) true ∷ []) first_made

poll_event_given :
    (get_instance_proc_addr Handle.null_handle (some (codes "xrPollEvent")) true).1
    ≡ some poll_event_fn
unfolding get_instance_proc_addr find_function same_text
poll_event_given = refl

get_instance_proc_addr_iff_example :
    (get_instance_proc_addr Handle.instance_handle (some (codes "xrEndFrame")) true
      ≡ (success, some end_frame_fn))
    ↔ (codes "xrEndFrame" ≡ name_of end_frame_fn)
get_instance_proc_addr_iff_example = get_instance_proc_addr_iff (codes "xrEndFrame") end_frame_fn

-- The loader's context reaches the pose client, which then has one.
context_handed :
    (c : PoseClient)
    → initialize_loader (some (record { application_vm = true; application_context = true })) true c
      ≡ (success, record c { has_context = true })
unfolding initialize_loader set_android_context
context_handed c = refl
