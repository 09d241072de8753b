-- ===== src/Lib.antt =====
-- A verification library for ciccni, a Kubernetes network plugin: an agent on each node programs an
-- Open vSwitch bridge by OpenFlow commands, and prepares the host for the traffic of the pods.
--
-- Parts, from the bottom up, with the files that model them:
--
-- Base.antt         shared names: lists, maps, the outcomes of Go calls, printed numbers
-- Net.antt          addresses of Go's net package as far as the code uses them: IPv4, networks, MACs
-- Binding.antt      pkg/ovs/openflow. Binding/Switch is cmd_bridge.go and cmd_table.go, Binding/Flow is
--                   cmd_flow.go, Binding/Builder and Binding/Action are cmd_builder.go and cmd_action.go
-- Openflow.antt     pkg/openflow. Openflow/Tables, Openflow/Flows and Openflow/State are pipeline.go,
--                   Openflow/Caches and Openflow/Client are client.go, Openflow/Match and
--                   Openflow/Policy are network_policy.go
-- Ovs.antt          pkg/ovs: Ovs/Bridge and Ovs/Ports are ovs-client.go, with its values in Ovs/Values,
--                   its reading of results in Ovs/Results and its transactions in Ovs/Database;
--                   Ovs/Errors is errors.go
-- Iptables.antt     pkg/iptables/iptables.go
-- Agent.antt        pkg/agent: Agent/Names is util/net.go, Agent/InterfaceStore is interface_cache.go,
--                   Agent/Nodes and Agent/Initializer are agentFunc.go; Agent/Options is
--                   cmd/ciccni-agent
-- Cniserver.antt    pkg/cniserver: Cniserver/Interfaces is configureInterface and removeInterfaces of
--                   cniserver.go, with the parts of pod_configuration.go that they need;
--                   Cniserver/Requests, Cniserver/Routes and Cniserver/Handlers are the RPC handlers
--                   with what they call, and Cniserver/Ipam is ipam; Cniserver/PodConfiguration is
--                   pod_configuration.go on network namespaces
-- Link.antt         pkg/link/veth.go
-- Cni.antt          pkg/cni/client.go: the plugin, which hands commands to the server
-- Tctools.antt      pkg/tctools: Tctools/Bandwidth is validateBandwithFormat, ConstructTcConfig and the
--                   rates of addHTBClass and createClassObject; Tctools/Shaping is the rest of tctools.go
--
-- The CNI server sets up and takes away the interface of a pod. It uses the interface store, whose
-- keys are the names of ports, and the OpenFlow client, which sends flows through the bindings of
-- pkg/ovs/openflow. The agent fills the store at its start and lets the client and the firewall install
-- what every node needs.
--
-- How the code corresponds to the model:
--
-- A function of the code has its name, in lower case with underscores: addMissingFlows is
-- add_missing_flows. A method that changes state is a function from the state to an outcome and the
-- state after it. The outcome is ok, err or panic; a panic is a method call on a nil pointer or
-- interface. The state of pkg/openflow is the record Client of Openflow/State.antt; the bridge is the
-- record Switch of Binding/Switch.antt, with the log of the commands run so far and, as a parameter,
-- the function that says which commands succeed after which others. What ovs-ofctl does with a
-- command is not modelled: theorems speak of the commands that are run.
--
-- A Go map is an association list. Ranging over a map visits the list in order; theorems hold for
-- every list, so for every order; where one builds the map itself, it ranges over any permutation of
-- the list. A flow does not change once it is built and is a value. The
-- contexts of network policies are shared by pointers, so they stand in a store and are named by
-- addresses. Locks, logging and time stamps are left out: each method is one step.
--
-- A number of w bits that wraps is kept below 2 ^ w with its remainder written out. Connect's loop
-- and the agent's wait for its link are structural in the number of tries that are left, so they need
-- no fuel; all other loops are over lists.
--
-- Calls on the host, the Kubernetes API, the OVSDB library, the IPAM plugins and gRPC are parameters:
-- the records Ops of Iptables.antt and of Cniserver/Interfaces.antt, Library of Ovs/Database.antt, Host
-- of Agent/Initializer.antt, Kernel of Tctools/Shaping.antt, NetNs of Cniserver/PodConfiguration.antt,
-- Netlink of Link.antt, Plugins of Cniserver/Ipam.antt, Codec of Cniserver/Requests.antt and Rpc
-- of Cni.antt. A deferred function runs after the code that it guards, unless the
-- flag `success` is set, which is part of that code's outcome.
--
-- Not modelled: the start of the RPC server, the generated gRPC stubs, logging, and what the kernel does
-- about netlink messages. They run programs and protocols of others. IPv6 addresses are not
-- modelled: the pods have IPv4 addresses, and parse_ip answers nil for every other text.
pub mod Base
pub mod Net
pub mod Ovs
pub mod Binding
pub mod Openflow
pub mod Iptables
pub mod Agent
pub mod Cniserver
pub mod Cni
pub mod Tctools
pub mod Link
