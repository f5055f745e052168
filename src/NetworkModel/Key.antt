-- ===== src/NetworkModel/Key.antt =====
-- The keys of a .connect document that src/btmesh/network_model.py reads.
use ha_bluetooth_mesh.Prelude.{[], ◌∷◌}
use ha_bluetooth_mesh.NetworkModel.{Text}

-- "netKeys"
abbrev pub net_keys : Text
net_keys = 110 ∷ 101 ∷ 116 ∷ 75 ∷ 101 ∷ 121 ∷ 115 ∷ []

-- "appKeys"
abbrev pub app_keys : Text
app_keys = 97 ∷ 112 ∷ 112 ∷ 75 ∷ 101 ∷ 121 ∷ 115 ∷ []

-- "key"
abbrev pub key : Text
key = 107 ∷ 101 ∷ 121 ∷ []

-- "index"
abbrev pub index : Text
index = 105 ∷ 110 ∷ 100 ∷ 101 ∷ 120 ∷ []

-- "name"
abbrev pub name : Text
name = 110 ∷ 97 ∷ 109 ∷ 101 ∷ []

-- "nodes"
abbrev pub nodes : Text
nodes = 110 ∷ 111 ∷ 100 ∷ 101 ∷ 115 ∷ []

-- "meshName"
abbrev pub mesh_name : Text
mesh_name = 109 ∷ 101 ∷ 115 ∷ 104 ∷ 78 ∷ 97 ∷ 109 ∷ 101 ∷ []

-- "meshUUID"
abbrev pub mesh_uuid : Text
mesh_uuid = 109 ∷ 101 ∷ 115 ∷ 104 ∷ 85 ∷ 85 ∷ 73 ∷ 68 ∷ []

-- "ivIndex"
abbrev pub iv_index : Text
iv_index = 105 ∷ 118 ∷ 73 ∷ 110 ∷ 100 ∷ 101 ∷ 120 ∷ []

-- "tos_groups"
abbrev pub tos_groups : Text
tos_groups = 116 ∷ 111 ∷ 115 ∷ 95 ∷ 103 ∷ 114 ∷ 111 ∷ 117 ∷ 112 ∷ 115 ∷ []

-- "type"
abbrev pub type : Text
type = 116 ∷ 121 ∷ 112 ∷ 101 ∷ []

-- "multicastAddress"
abbrev pub multicast_address : Text
multicast_address =
    109 ∷ 117 ∷ 108 ∷ 116 ∷ 105 ∷ 99 ∷ 97 ∷ 115 ∷ 116 ∷ 65 ∷ 100 ∷ 100 ∷ 114 ∷ 101 ∷ 115 ∷ 115 ∷ []

-- "id"
abbrev pub id : Text
id = 105 ∷ 100 ∷ []

-- "tos_devices"
abbrev pub tos_devices : Text
tos_devices = 116 ∷ 111 ∷ 115 ∷ 95 ∷ 100 ∷ 101 ∷ 118 ∷ 105 ∷ 99 ∷ 101 ∷ 115 ∷ []

-- "tos_node"
abbrev pub tos_node : Text
tos_node = 116 ∷ 111 ∷ 115 ∷ 95 ∷ 110 ∷ 111 ∷ 100 ∷ 101 ∷ []

-- "ports"
abbrev pub ports : Text
ports = 112 ∷ 111 ∷ 114 ∷ 116 ∷ 115 ∷ []

-- "meshAddress"
abbrev pub mesh_address : Text
mesh_address = 109 ∷ 101 ∷ 115 ∷ 104 ∷ 65 ∷ 100 ∷ 100 ∷ 114 ∷ 101 ∷ 115 ∷ 115 ∷ []

-- "modelId"
abbrev pub model_id : Text
model_id = 109 ∷ 111 ∷ 100 ∷ 101 ∷ 108 ∷ 73 ∷ 100 ∷ []

-- "bind"
abbrev pub bind : Text
bind = 98 ∷ 105 ∷ 110 ∷ 100 ∷ []

-- "subscribe"
abbrev pub subscribe : Text
subscribe = 115 ∷ 117 ∷ 98 ∷ 115 ∷ 99 ∷ 114 ∷ 105 ∷ 98 ∷ 101 ∷ []

-- "models"
abbrev pub models : Text
models = 109 ∷ 111 ∷ 100 ∷ 101 ∷ 108 ∷ 115 ∷ []

-- "unicastAddress"
abbrev pub unicast_address : Text
unicast_address =
    117 ∷ 110 ∷ 105 ∷ 99 ∷ 97 ∷ 115 ∷ 116 ∷ 65 ∷ 100 ∷ 100 ∷ 114 ∷ 101 ∷ 115 ∷ 115 ∷ []

-- "deviceKey"
abbrev pub device_key : Text
device_key = 100 ∷ 101 ∷ 118 ∷ 105 ∷ 99 ∷ 101 ∷ 75 ∷ 101 ∷ 121 ∷ []

-- "cid"
abbrev pub cid : Text
cid = 99 ∷ 105 ∷ 100 ∷ []

-- "elements"
abbrev pub elements : Text
elements = 101 ∷ 108 ∷ 101 ∷ 109 ∷ 101 ∷ 110 ∷ 116 ∷ 115 ∷ []

-- "UUID"
abbrev pub uuid : Text
uuid = 85 ∷ 85 ∷ 73 ∷ 68 ∷ []

-- "all", the type of the group that every export has
abbrev pub all : Text
all = 97 ∷ 108 ∷ 108 ∷ []
