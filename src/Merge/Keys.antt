-- ===== src/Merge/Keys.antt =====
-- What identifies an entry of a sequence: the container path of a volume or a device, the whole
-- tuple of a port, the name of a `K=V` text.
pub mod Split
use compose_lint.Prelude.{
  Bool, List, Option, String, [], code, false, if◌then◌else◌, none, not, or_else, some, str_eq, suc,
  true, zero, ℕ, ◌&&◌, ◌++◌, ◌==◌, ◌||◌, ◌∷◌,
}
use compose_lint.Text.{append, partition, starts_with}
use compose_lint.Dict.{Dict}
use compose_lint.Value.{Value, as_scalar_text, date, dict, entries, get, get_default, str}

-- `str.split("/")`: the first part, and the others.
unfoldable pub split_on : ℕ → String → String × List String
split_on k String.[] = ("", [])
split_on k (String.◌∷◌ c s) =
    let (first, others) = split_on k s in
    if code c == k then ("", first ∷ others) else (String.◌∷◌ c first, others)

below : List String → List String
below [] = []
below (c ∷ cs) = cs

is_bare : List String → Bool
is_bare [] = true
is_bare (c ∷ cs) = false

tops_parent : List String → Bool
tops_parent [] = false
tops_parent (c ∷ cs) = str_eq c ".."

abbrev in_order : List String → List String → List String
in_order [] done = done
in_order (c ∷ stack) done = in_order stack (c ∷ done)

-- `posixpath.normpath` over its components; `stack` holds the last one first.
norm_components : Bool → List String → List String → List String
unfolding below is_bare tops_parent
norm_components rooted stack [] = in_order stack []
norm_components rooted stack (comp ∷ comps) =
    let skipped = norm_components rooted stack comps in
    let pushed = norm_components rooted (comp ∷ stack) comps in
    let popped = norm_components rooted (below stack) comps in
    if str_eq comp "" || str_eq comp "."
    then skipped
    else if not (str_eq comp "..") || (not rooted && is_bare stack) || tops_parent stack
    then pushed
    else popped

-- `sep.join(parts)`
unfoldable pub join_text : String → List String → String
join_text sep [] = ""
join_text sep (p ∷ []) = p
join_text sep (p ∷ q ∷ ps) = append p (append sep (join_text sep (q ∷ ps)))

or_dot : String → String
or_dot s = if str_eq s "" then "." else s

-- _container_path: of two leading slashes, which `normpath` keeps, one is left.
unfoldable pub container_path : String → String
unfolding split_on norm_components join_text starts_with or_dot
container_path path =
    let rooted = starts_with "/" path in
    let (first, others) = split_on b'/' path in
    let normal = join_text "/" (norm_components rooted [] (first ∷ others)) in
    if str_eq path "" then path else or_dot (append (if rooted then "/" else "") normal)

-- _split_outside_braces, at `depth` of the braces, `dollar` when a dollar stands before.
unfoldable pub split_from : Bool → ℕ → String → String × List String
split_from dollar depth String.[] = ("", [])
split_from dollar zero (String.◌∷◌ c s) =
    let (inner, inner_rest) = split_from (code c == b'$') 1 s in
    let (first, others) = split_from (code c == b'$') 0 s in
    if code c == b'{' && dollar
    then (String.◌∷◌ c inner, inner_rest)
    else if code c == b':'
    then ("", first ∷ others)
    else (String.◌∷◌ c first, others)
split_from dollar (suc depth) (String.◌∷◌ c s) =
    let (inner, inner_rest) = split_from (code c == b'$') (suc (suc depth)) s in
    let (outer, outer_rest) = split_from (code c == b'$') depth s in
    let (first, others) = split_from (code c == b'$') (suc depth) s in
    if code c == b'{' && dollar
    then (String.◌∷◌ c inner, inner_rest)
    else if code c == b'}'
    then (String.◌∷◌ c outer, outer_rest)
    else (String.◌∷◌ c first, others)

unfoldable pub split_outside_braces : String → String × List String
unfolding split_from
split_outside_braces text = split_from false 0 text

-- `entry.get("target")` where it is a text.
target_path : Value → Option String
unfolding container_path
target_path (str target) = some (container_path target)
target_path _ = none

second_path : String × List String → Option String
unfolding container_path
second_path (first, []) = none
second_path (first, second ∷ rest) = some (container_path second)

-- _volume_key
unfoldable pub volume_key : Value → Option String
unfolding target_path second_path split_outside_braces get
volume_key (dict e) = target_path (get "target" (entries e))
volume_key (str s) = second_path (split_outside_braces s)
volume_key _ = none

-- _device_key
unfoldable pub device_key : Value → Option String
unfolding target_path second_path split_outside_braces get container_path
device_key (dict e) = target_path (get "target" (entries e))
device_key (str s) =
    let parts = split_outside_braces s in
    some (or_else (second_path parts) (container_path parts.0))
device_key _ = none

-- `str(value)` of a field that is missing, null or a `_SCALAR`.
field_text : Value → Option String
unfolding as_scalar_text
field_text (date s) = none
field_text v = as_scalar_text v

and_field : Option String → Option (List String) → Option (List String)
and_field (some s) (some ss) = some (s ∷ ss)
and_field _ _ = none

joined_fields : Option (List String) → Option String
unfolding join_text
joined_fields none = none
joined_fields (some ss) = some (join_text "|" ss)

long_port_key : Dict Value → Option String
unfolding field_text and_field joined_fields get_default
long_port_key e = joined_fields (
    and_field (field_text (get_default "host_ip" (str "") e)) (
      and_field (field_text (get_default "published" (str "") e)) (
        and_field (field_text (get_default "target" (str "") e))
          (and_field (field_text (get_default "protocol" (str "tcp") e)) (some [])))))

-- The host address, the published port and the target of a short port.
port_fields : String × List String → List String
port_fields (a, b ∷ c ∷ []) = a ∷ b ∷ c ∷ []
port_fields (a, b ∷ []) = "" ∷ a ∷ b ∷ []
port_fields (a, _) = "" ∷ "" ∷ a ∷ []

or_tcp : Option String → String
or_tcp none = "tcp"
or_tcp (some s) = if str_eq s "" then "tcp" else s

-- _port_key
unfoldable pub port_key : Value → Option String
unfolding long_port_key port_fields split_outside_braces or_tcp join_text partition
port_key (dict e) = long_port_key (entries e)
port_key (str s) =
    let (spec, proto) = partition b'/' s in
    some (join_text "|" (port_fields (split_outside_braces spec) ++ or_tcp proto ∷ []))
port_key _ = none

-- _kv_name
unfoldable pub kv_name : Value → Option String
unfolding partition
kv_name (str s) = let name = (partition b'=' s).0 in if str_eq name "" then none else some name
kv_name _ = none
