-- ===== src/Runtime.antt =====
-- android-runtime/session.cpp: the runtime's globals as one record, its handle checks, and the helpers
-- that change the globals. The entry points are in the modules below.
pub mod Session
pub mod Swapchain
pub mod Path
pub mod Action
pub mod Space
pub mod Frame
pub mod Enumerate
pub mod System
pub mod Input
pub mod Float
pub mod Location
pub mod Eyes
pub mod LocationExamples
pub mod ListingExamples
pub mod Dispatch
pub mod Reports
pub mod Names
pub mod Listings
pub mod Calls
pub mod Bounds
pub mod Lifecycle
pub mod Events
pub mod Images
pub mod Paths
pub mod Actions
pub mod Spaces
mod Examples
mod ReportExamples
use axrb.Common.{
  ℕ, zero, suc, Bool, true, false, ◌||◌, Option, none, List, [], ◌∷◌, ◌++◌, ◌==◌, if◌then◌else◌,
}
use axrb.Xr.{XrResult, Handle, SessionState, unknown}

-- A `float` by the bits of its IEEE-754 encoding.
abbrev pub Float32 : Type 0
Float32 = ℕ

-- XrPosef
pub record PoseF : Type 0 where
  pub orientation_x : Float32
  pub orientation_y : Float32
  pub orientation_z : Float32
  pub orientation_w : Float32
  pub position_x : Float32
  pub position_y : Float32
  pub position_z : Float32

pub data SpaceKind : Type 0 where
  reference view left_hand right_hand : SpaceKind

-- A slot's handle is its index, so it has no field of its own.
pub record SpaceRecord : Type 0 where
  pub kind : SpaceKind
  pub offset_in_parent : PoseF

-- `text` is the bytes before the terminating null byte.
pub record PathRecord : Type 0 where
  pub path : ℕ
  pub text : List ℕ

-- The three texture names of `g_glSwapchainTextures`.
pub record Textures : Type 0 where
  pub first : ℕ
  pub second : ℕ
  pub third : ℕ

-- `spaces` and `paths` are the first `g_spaceCount` and `g_pathCount` slots of the arrays; a slot
-- past the count is written whole before it is read.
pub record Runtime : Type 0 where
  pub session_state : SessionState
  pub pending_session_events : List SessionState
  pub spaces : List SpaceRecord
  pub paths : List PathRecord
  pub swapchain_created : Bool
  pub swapchain_image_acquired : Bool
  pub swapchain_image_waited : Bool
  pub next_swapchain_image : ℕ
  pub swapchain_width : ℕ
  pub swapchain_height : ℕ
  pub swapchain_array_size : ℕ
  pub swapchain_format : ℕ
  pub gl_swapchain_textures : Textures
  pub current_swapchain_image : ℕ
  pub last_released_swapchain_image : ℕ
  pub action_count : ℕ
  pub next_path : ℕ
  pub image_frame_sequence : ℕ

abbrev pub max_spaces : ℕ
max_spaces = 16

abbrev pub max_paths : ℕ
max_paths = 64

abbrev pub max_actions : ℕ
max_actions = 8

abbrev pub no_textures : Textures
no_textures = record { first = 0; second = 0; third = 0 }

-- The values that the globals are initialised with when the library is loaded.
unfoldable pub loaded : Runtime
loaded = record {
  session_state = unknown;
  pending_session_events = [];
  spaces = [];
  paths = [];
  swapchain_created = false;
  swapchain_image_acquired = false;
  swapchain_image_waited = false;
  next_swapchain_image = 0;
  swapchain_width = 0;
  swapchain_height = 0;
  swapchain_array_size = 0;
  swapchain_format = 0;
  gl_swapchain_textures = no_textures;
  current_swapchain_image = 0;
  last_released_swapchain_image = 0;
  action_count = 0;
  next_path = 1;
  image_frame_sequence = 0;
}

-- What an entry point returns, what it writes through its output pointer (`none` where it leaves the
-- storage alone), and the globals after it.
abbrev pub Reply : Type 0 → Type 0
Reply A = XrResult × Option A × Runtime

abbrev pub fail : {A : Type 0} → XrResult → Runtime → Reply A
fail e r = (e, none, r)

unfoldable pub is_valid_instance : Handle → Bool
is_valid_instance Handle.instance_handle = true
is_valid_instance _ = false

unfoldable pub is_valid_session : Handle → Bool
is_valid_session Handle.session_handle = true
is_valid_session _ = false

is_fake_swapchain : Handle → Bool
is_fake_swapchain Handle.swapchain_handle = true
is_fake_swapchain _ = false

unfoldable pub is_valid_swapchain : Runtime → Handle → Bool
unfolding is_fake_swapchain
is_valid_swapchain r swapchain = if r.swapchain_created then is_fake_swapchain swapchain else false

unfoldable pub is_valid_action_set : Handle → Bool
is_valid_action_set Handle.action_set_handle = true
is_valid_action_set _ = false

-- `&g_actionHandles[i]` equals `action` for some `i` below the count.
is_action_index : Handle → ℕ → Bool
is_action_index (Handle.action_handle j) i = j == i
is_action_index _ i = false

unfoldable pub any_action : Handle → ℕ → Bool
unfolding is_action_index
any_action action zero = false
any_action action (suc n) = is_action_index action n || any_action action n

unfoldable pub is_valid_action : Runtime → Handle → Bool
unfolding any_action
is_valid_action r action = any_action action r.action_count

-- The new state becomes current at once, and is queued for `xrPollEvent`.
unfoldable pub queue_session_state : SessionState → Runtime → Runtime
queue_session_state state r = record r {
  session_state = state;
  pending_session_events = r.pending_session_events ++ state ∷ [];
}

unfoldable pub destroy_swapchain_images : Runtime → Runtime
destroy_swapchain_images r = record r { gl_swapchain_textures = no_textures }

-- `generated` is what `glGenTextures` stores.
unfoldable pub create_opengles_swapchain_images : Textures → Runtime → Runtime
unfolding destroy_swapchain_images
create_opengles_swapchain_images generated r = record (destroy_swapchain_images r) {
  gl_swapchain_textures = generated;
}
