-- ===== src/Runtime/Reports.antt =====
-- android-runtime/session.cpp: how the entry points that report constants and actions at rest agree
-- with those that give out system ids and action handles.
use axrb.Common.{ℕ, ◌≤◌, ◌≡◌, ◌≢◌, ◌↔◌, refl, Bool, true, false, Option, none, some, List, arith}
use axrb.Xr.{
  Handle, Typed, success, system_invalid, validation_failure, make_version, k_system_id,
  primary_stereo,
}
use axrb.Xr.StructureType.{
  type_session_create_info, type_action_state_get_info, type_action_state_boolean,
  type_action_state_float, type_action_state_vector2f, type_action_state_pose,
}
use axrb.Runtime.{Runtime, is_valid_action}
use axrb.Runtime.Session.{create_session}
use axrb.Runtime.Action.{create_action}
use axrb.Runtime.System.{
  StructSizes, NegotiateLoaderInfo, negotiate_loader_runtime_interface, loader_info, SystemGetInfo,
  get_system, get_system_properties, get_opengl_es_graphics_requirements,
  get_vulkan_graphics_requirements, get_view_configuration_properties,
}
use axrb.Runtime.Enumerate.{enumerate_view_configurations}
use axrb.Runtime.Input.{
  ActionInfo, get_action_state_boolean, get_action_state_float, get_action_state_vector2f,
  get_action_state_pose,
}
use axrb.Runtime.Calls.{Call, run}
use axrb.Runtime.Actions.{create_action_valid}

-- The loader and the runtime agree exactly when the loader describes itself in the layout of
-- version 1, takes interface version 1, and takes version 1.0.0 of the API.
pub negotiate_iff :
    (sizes : StructSizes) (info : NegotiateLoaderInfo)
    → ((negotiate_loader_runtime_interface sizes (some info) true).0 ≡ success) ↔ (
        (info.struct_type ≡ loader_info)
        × (info.struct_version ≡ 1)
        × (info.struct_size ≡ sizes.loader_info_size)
        × (info.min_interface_version ≤ 1)
        × (1 ≤ info.max_interface_version)
        × (info.min_api_version ≤ make_version 1 0 0)
        × (make_version 1 0 0 ≤ info.max_api_version))
unfolding negotiate_loader_runtime_interface
negotiate_iff sizes info = ground arith

given_system_id :
    (instance : Handle) (info : Option SystemGetInfo) (out : Bool) (given : ℕ)
    → (get_system instance info out).1 ≡ some given
    → given ≡ k_system_id
unfolding get_system
given_system_id instance none out given e = ground arith
given_system_id instance (some info) out given e = ground arith

-- The entry points that take a system id, well-formed otherwise, refuse an id as no system exactly
-- when it is not the one that xrGetSystem gives.
pub system_ids_agree :
    (instance : Handle) (info : Option SystemGetInfo) (out : Bool) (given id capacity : ℕ)
    (count_out array_out : Bool) (types : ℕ → ℕ) (properties : Typed) (r : Runtime)
    → (get_system instance info out).1 ≡ some given
    → (((get_system_properties Handle.instance_handle id properties).0 ≡ system_invalid)
        ↔ (id ≢ given))
      × (((get_opengl_es_graphics_requirements Handle.instance_handle id properties).0
            ≡ system_invalid)
          ↔ (id ≢ given))
      × (((get_vulkan_graphics_requirements Handle.instance_handle id properties).0
            ≡ system_invalid)
          ↔ (id ≢ given))
      × (((get_view_configuration_properties Handle.instance_handle id primary_stereo properties).0
            ≡ system_invalid)
          ↔ (id ≢ given))
      × (((enumerate_view_configurations Handle.instance_handle id capacity count_out array_out).0
            ≡ system_invalid)
          ↔ (id ≢ given))
      × (((create_session Handle.instance_handle
              (some (record { type = type_session_create_info; system_id = id }))
              true
              r).0
            ≡ system_invalid)
          ↔ (id ≢ given))
unfolding get_system_properties get_opengl_es_graphics_requirements get_vulkan_graphics_requirements
    get_view_configuration_properties enumerate_view_configurations create_session
system_ids_agree instance info out given id capacity count_out array_out types properties r e =
    let same = given_system_id instance info out given e in
    (ground arith, ground arith, ground arith, ground arith, ground arith, ground arith)

abbrev pub about : Handle → Option ActionInfo
about action = some (record { type = type_action_state_get_info; action = action })

states_at_rest :
    (action : Handle) (now : ℕ) (r : Runtime)
    → is_valid_action r action ≡ true
    → (get_action_state_boolean Handle.session_handle
          (about action)
          (some type_action_state_boolean)
          now
          r
        ≡ (
          success,
          some (record {
            current_state = 0;
            changed_since_last_sync = 0;
            last_change_time = now;
            is_active = 1;
          }),
        ))
      × ((get_action_state_float Handle.session_handle
            (about action)
            (some type_action_state_float)
            now
            r).0
          ≡ success)
      × ((get_action_state_vector2f Handle.session_handle
            (about action)
            (some type_action_state_vector2f)
            now
            r).0
          ≡ success)
      × (get_action_state_pose Handle.session_handle (about action) (some type_action_state_pose) r
          ≡ (success, some 1))
unfolding get_action_state_boolean get_action_state_float get_action_state_vector2f
    get_action_state_pose
states_at_rest action now r v = rw v (refl, refl, refl, refl)

states_refused :
    (action : Handle) (now : ℕ) (r : Runtime)
    → is_valid_action r action ≡ false
    → ((get_action_state_boolean Handle.session_handle
          (about action)
          (some type_action_state_boolean)
          now
          r).0
        ≡ validation_failure)
      × ((get_action_state_float Handle.session_handle
            (about action)
            (some type_action_state_float)
            now
            r).0
          ≡ validation_failure)
      × ((get_action_state_vector2f Handle.session_handle
            (about action)
            (some type_action_state_vector2f)
            now
            r).0
          ≡ validation_failure)
      × ((get_action_state_pose Handle.session_handle
            (about action)
            (some type_action_state_pose)
            r).0
          ≡ validation_failure)
unfolding get_action_state_boolean get_action_state_float get_action_state_vector2f
    get_action_state_pose
states_refused action now r v = rw v (refl, refl, refl, refl)

-- Before xrCreateAction gives the handle of an action, none of its Boolean, float, vector and pose
-- states can be asked for; afterwards, and after any further calls, all four can: the Boolean state is
-- at rest and active, the float and the vector state succeed, the pose state is active.
pub action_states_lem :
    (action_set : Handle) (info : Typed) (out : Bool) (r : Runtime) (action : Handle) (now : ℕ)
    (cs : List Call)
    → (create_action action_set info out r).1 ≡ some action
    → let r' = run (create_action action_set info out r).2 cs in
      ((get_action_state_boolean Handle.session_handle
          (about action)
          (some type_action_state_boolean)
          now
          r).0
        ≡ validation_failure)
      × ((get_action_state_float Handle.session_handle
            (about action)
            (some type_action_state_float)
            now
            r).0
          ≡ validation_failure)
      × ((get_action_state_vector2f Handle.session_handle
            (about action)
            (some type_action_state_vector2f)
            now
            r).0
          ≡ validation_failure)
      × ((get_action_state_pose Handle.session_handle
            (about action)
            (some type_action_state_pose)
            r).0
          ≡ validation_failure)
      × (get_action_state_boolean Handle.session_handle
            (about action)
            (some type_action_state_boolean)
            now
            r'
          ≡ (
            success,
            some (record {
              current_state = 0;
              changed_since_last_sync = 0;
              last_change_time = now;
              is_active = 1;
            }),
          ))
      × ((get_action_state_float Handle.session_handle
            (about action)
            (some type_action_state_float)
            now
            r').0
          ≡ success)
      × ((get_action_state_vector2f Handle.session_handle
            (about action)
            (some type_action_state_vector2f)
            now
            r').0
          ≡ success)
      × (get_action_state_pose Handle.session_handle (about action) (some type_action_state_pose) r'
          ≡ (success, some 1))
action_states_lem action_set info out r action now cs e =
    let v = create_action_valid action_set info out r action cs e in
    let refused = states_refused action now r v.0 in
    let rest = states_at_rest action now (run (create_action action_set info out r).2 cs) v.1 in
    (refused.0, refused.1, refused.2, refused.3, rest.0, rest.1, rest.2, rest.3)
