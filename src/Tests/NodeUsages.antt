-- ===== src/Tests/NodeUsages.antt =====
-- The usage of two concrete nodes.
use marzban.Common.{◌+◌, ◌≡◌, List, [], ◌∷◌, false, arith}
use marzban.Jobs.Usages.{hour_of}
use marzban.Jobs.NodeUsages.{System, NodeTraffic, record_node_usages}
use marzban.Jobs.NodeUsages.Conserved.{uplinks, downlinks, IsHourly, record_node_usages-conserved}
use marzban.Tests.Samples.{context}

abbrev nodes : List NodeTraffic
nodes =
    record { node_id = 1; params = record { up = 5; down = 0 } ∷ record { up = 0; down = 7 } ∷ [] }
    ∷ record { node_id = 2; params = record { up = 3; down = 0 } ∷ [] }
    ∷ []

abbrev system : System
system = record { uplink = 100; downlink = 200 }

no_rows-IsHourly : IsHourly (hour_of context.now) []
no_rows-IsHourly k = omega arith

record_node_usages-conserved_example :
    let (system', rows') = record_node_usages false context.now nodes (system, []) in
    (uplinks rows' + system.uplink ≡ 0 + system'.uplink)
    × (downlinks rows' + system.downlink ≡ 0 + system'.downlink)
    × IsHourly (hour_of context.now) rows'
record_node_usages-conserved_example =
    record_node_usages-conserved context.now nodes system [] no_rows-IsHourly
