-- ===== src/Lib.antt =====
-- gardener/vpn2: the VPN between the seed and the shoot clusters of Gardener.
--
-- A seed runs VPN servers (OpenVPN) and, in the HA setup, seed clients beside the kube-apiservers; a
-- shoot runs shoot clients. In the HA setup each client bonds one tap device per server, a seed
-- client takes its bonding address from a pool, its path controller routes the traffic through one
-- shoot client that answers pings, and the tunnel controller of a shoot client makes a tunnel back to
-- each kube-apiserver that reports its pod IP.
--
-- The files and the code that they follow, by paths from the repository's root:
-- IpPool: pkg/ippool. Manager is manager.go over an interface of the pod API. Broker is broker.go:
--   AcquireIP is a machine with a step for each stretch between two calls of the API, and
--   Broker/World interleaves the steps of several clients over one cluster.
-- Tunnel: pkg/shoot_client/tunnel. Watchdog is watchdog.go; Server is kubeApiserverData of tunnel.go;
--   Controller is the map of tunnel.go with the parts of a round, and readiness.go, with a store of
--   data by place, since an update that still runs keeps data that was cleaned away; SetUp is the
--   start of its Run, with client.go, and Run the loop, as a step relation on the parts of rounds and
--   cleanings between which the locks are free, updates and Stop.
-- PathController: cmd/vpn_client/app/pathcontroller. Router is client_router.go and pathcontroller.go,
--   Ping is ping.go.
-- Network: pkg/network. Link is link.go, route.go and mtu.go over the interface in Netlink; Cidr is
--   types.go, Bonding is ip.go, Netmap is netmap.go, Iptables is iptables.go, NetStat is netstat.go.
-- Openvpn: pkg/openvpn. Status is the parser of health/status.go, Health its tests and
--   readiness.go, Exporter is exporter/netstat.go and exporter.go.
-- Config: pkg/config. Client is vpn-client.go, Server is vpn-server.go.
-- Server: pkg/vpn_server, pkg/openvpn/config_server.go, and cmd/vpn_server/app, of which Firewall is
--   firewall.go, and Commands is liveness.go, readiness.go, exporter.go and setup/setup.go.
-- Client: pkg/vpn_client, and app.go and setup/setup.go of cmd/vpn_client/app.
-- Net: what these use of Go's packages net and strings. Prelude: shared types, lemmas and names.
--
-- A Go int is ℕ where the code never makes it negative, and an unbounded ℤ where it may be; an index
-- that is masked to a byte is written with its remainder. Times are nanoseconds. An error is its text,
-- without the values that the code formats into it; the theorems do not depend on those texts. Code
-- that changes the host and may fail is a function over the host's state. A Go map is an association
-- list; where its order decides, the element is picked by a parameter or the order is a list.
--
-- Bounds: AcquireIP takes at most thirty rounds of three steps, and one more step ends it; the search
-- of a free address draws a thousand times; decimal numbers and splits of texts run on fuel of the
-- size of their input.
--
-- Parameters: the Kubernetes API, netlink, iptables, sysctl, ICMP, sockets, the file system, the
-- templates, Prometheus, the ranges of gardener/gardener, and the parsers of Go's library for
-- addresses, ranges, times and numbers. Not modelled: command lines, HTTP servers, profiling, waits
-- and logs.
pub mod Prelude
pub mod Net
pub mod Network
pub mod IpPool
pub mod Tunnel
pub mod Client
pub mod Openvpn
pub mod Config
pub mod Server
pub mod PathController
