-- ===== src/Lib.antt =====
-- Rudr, a Kubernetes controller for the Open Application Model: an application configuration
-- names components, gives them parameters, traits and scopes, and the controller turns each
-- component into Kubernetes objects.
--
-- The parts, and the file that models each:
--   Parameter.antt     src/schematic/parameter.rs: values are merged with those of the parent
--                      (resolve_values) and resolved against the component's definitions
--                      (resolve_parameters). The result is the map that all conversions read.
--   Variable.antt      src/schematic/variable.rs: references to variables in the values.
--   Component.antt     src/schematic/component.rs: the schematic. Component/Containers.antt and
--                      Component/PodSpec.antt convert it to a pod, Component/Configs.antt to the
--                      config maps that the pod mounts; Component/Kube.antt has the fields of the
--                      Kubernetes objects that the source sets.
--   Workload.antt      src/workload_type.rs and the files of src/workload_type: the metadata,
--                      the builders (Workload/Builders.antt), the operations of servers, tasks and
--                      workers (Workload/Core.antt, Workload/Status.antt), the extended types
--                      (Workload/Extended.antt), and load_workload_type of src/instigator.rs,
--                      which picks one by a component's type (Workload/Loading.antt).
--   Scopes.antt        src/schematic/scopes.rs and the files of src/schematic/scopes: health and
--                      network scopes. HealthScope.antt has the object of a health scope.
--   TraitManager.antt  src/trait_manager.rs: the loading of a component's traits, and the phases
--                      and statuses of all of them (TraitManager/Running.antt).
--   Instigator.antt    src/instigator.rs: records, names and owners of component instances
--                      (Instigator/Instances.antt), what is loaded for a component
--                      (Instigator/Setting.antt), its application scopes
--                      (Instigator/Binding.antt), exec with add, modify and delete
--                      (Instigator/Execution.antt), sync_status (Instigator/Sync.antt), and the
--                      retried patch of a status (Instigator/StatusPatch.antt).
--   KubeEvents.antt    src/kube_event.rs: the events that are posted about objects.
--   Controller.antt    src/main.rs: handle_event, which calls the instigator, and the loops of the
--                      threads (Controller/Watching.antt).
--   HealthController.antt  healthscope/src/main.rs, the second binary: the probing of health scopes
--                      whose components the instigator lists and whose instances sync_status
--                      marks, the answers to requests, and the future that a request waits on
--                      (HealthController/Answering.antt, HealthController/Waiting.antt). What
--                      the two binaries make of an instance's status is HealthController/Marking.antt.
--   Arms.antt          matches of a text on constant arms, for the two that load by name.
--   Traits.antt        src/schematic/traits.rs and the files of src/schematic/traits: the traits
--                      as they are read from properties, and the objects they become.
--   TraitOps.antt      the same files: what each trait requests in each phase and for its status.
--   Gvk.antt           GroupVersionKind of src/schematic.rs.
--   Configuration.antt, Lifecycle.antt: the records of src/schematic/configuration.rs and the
--                      phases of src/lifecycle.rs.
--
-- What the program calls and does not define is a parameter or a plain data type: serde_json
-- (Json.antt, the record Serde with the documented behaviour as laws), the Kubernetes API
-- (Client.antt, the record Server, which answers each request from the requests before it; the
-- objects that are read are in KubeObjects.antt), the
-- printing of a double, the case of letters, the text of a record annotation, the comparison of
-- records, the clock, the parsing and printing of times, and the unstable sort (Variable/Dedup.antt,
-- the record IsSort); what the instigator takes of these is the record Platform. Ordered
-- maps are association lists in the order of their keys (BTreeMap.antt), paths of the file system
-- are read by StdText.antt (StdText/Paths.antt says which have no parent), and the errors of the
-- API are in Cluster.antt.
--
-- An operation on the API is a function from the log of requests to its result and the longer log.
-- An unwrap of a missing value is an error of its own, which no handler catches. An i32 is an
-- integer, and its casts and sums wrap. The printer of numbers runs on fuel and gets the number
-- itself: a number has at most as many digits as its value. The retried patch runs on fuel too, a
-- unit for a round, and says when it is still running: the source's loop has no bound, and how much
-- fuel is enough depends on when the server stops reporting conflicts.
--
-- The health future is a step relation: a poll and the end of the thread are steps in any order.
-- Handling a configuration ends with the retried patch, so it takes the same fuel.
--
-- Not modelled: the deserialisation of the schematics, the encoding of bodies (taken not to fail),
-- command line flags, the choice of a client configuration, the start of threads and of the HTTP
-- servers and the waits between rounds of the loops, which are calls of other crates.
mod Prelude
pub mod Arms
pub mod BTreeMap
pub mod Json
pub mod Parameter
pub mod Variable
pub mod StdText
pub mod Component
pub mod Gvk
pub mod Lifecycle
pub mod Configuration
pub mod Cluster
pub mod HealthScope
pub mod KubeObjects
pub mod Client
pub mod KubeEvents
pub mod Scopes
pub mod Traits
pub mod TraitOps
pub mod Workload
pub mod TraitManager
pub mod Instigator
pub mod Controller
pub mod HealthController
