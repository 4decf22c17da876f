-- ===== src/Router/StaticRoutes.antt =====
-- halyard/src/router/static_routes.rs: the paths to prerender for a static route, from the values
-- given for its parameters.
pub mod Values
pub mod Spelled
pub mod Expanded
mod Tests
use halyard.Prelude.{
  Bool, true, false, ◌||◌, Option, none, some, List, [], ◌∷◌, ◌++◌, map, if◌then◌else◌,
}
use halyard.Prelude.Bytes.{Bytes, ◌=b◌, is_empty, starts_with_byte}
use halyard.Router.Segments.{PathSegment, unit, static, param, optional_param, splat}

abbrev pub StaticParamsMap : Type 0
StaticParamsMap = List (Bytes × List Bytes)

pub insert : Bytes → List Bytes → StaticParamsMap → StaticParamsMap
insert key value [] = (key, value) ∷ []
insert key value ((k, v) ∷ items) =
    if k =b key then (k, value) ∷ items else (k, v) ∷ insert key value items

pub get : Bytes → StaticParamsMap → Option (List Bytes)
get key [] = none
get key ((k, v) ∷ items) = if k =b key then some v else get key items

-- The path of a `ResolvedStaticPath` goes on with the name of a static segment.
pub add_static : Bytes → Bytes → Bytes
add_static s path = if starts_with_byte b'/' s || is_empty s then path ++ s else path ++ b'/' ∷ s

pub add_value : Bytes → Bytes → Bytes
add_value path val = if starts_with_byte b'/' val then path ++ val else path ++ b'/' ∷ val

-- A path for each value of a parameter, or none where it has none.
pub fill : Option (List Bytes) → List Bytes → List Bytes
fill found [] = []
fill found (path ∷ paths) =
    let filled : List Bytes = elim found [ none ↦ [] | some vals ↦ map (add_value path) vals ] in
    filled ++ fill found paths

abbrev pub param_paths : Option StaticParamsMap → Bytes → List Bytes → List Bytes
param_paths none name paths = []
param_paths (some params) name paths = fill (get name params) paths

abbrev pub unwrap_or_default : Option (List Bytes) → List Bytes
unwrap_or_default none = []
unwrap_or_default (some vals) = vals

abbrev pub values : Option StaticParamsMap → Bytes → List Bytes
values none name = []
values (some params) name = unwrap_or_default (get name params)

pub with_and_without : List Bytes → List Bytes → List Bytes
with_and_without vals [] = []
with_and_without vals (path ∷ paths) =
    path ∷ (map (add_value path) vals ++ with_and_without vals paths)

-- One round of the loop over the segments.
pub add_segment : Option StaticParamsMap → PathSegment → List Bytes → List Bytes
add_segment params unit paths = paths
add_segment params (static s) paths = map (add_static s) paths
add_segment params (param name) paths = param_paths params name paths
add_segment params (splat name) paths = param_paths params name paths
add_segment params (optional_param name) paths = with_and_without (values params name) paths

pub add_segments : Option StaticParamsMap → List PathSegment → List Bytes → List Bytes
add_segments params [] paths = paths
add_segments params (segment ∷ segments) paths =
    add_segments params segments (add_segment params segment paths)

pub into_paths : Option StaticParamsMap → List PathSegment → List Bytes
into_paths params segments = add_segments params segments ([] ∷ [])
