-- ===== src/Lib.antt =====
-- The opsgenie-operator, a Kubernetes operator that keeps teams, services, incident rules, schedules
-- and escalations in Opsgenie as custom resources describe them.
--
-- The program has five controllers in internal/controller. Each is called with the name of a
-- resource, reads it from the Kubernetes API, compares it with the object in Opsgenie, creates or
-- updates that, writes the resource's status, and says when it is to be called again. They interact
-- through the statuses in Kubernetes: a service and an escalation read the id of a team there, an
-- incident rule the id of a service, an escalation's recipient the id of a team or a schedule.
-- cmd/main.go reads the flags, makes the clients, registers the controllers and starts the manager.
--
-- Files, and the code they model:
--   Exec          errors, results and early returns of the controllers: a `Proc` passes a world along
--                 and ends with a value, an error or a panic (a nil dereference). Exec/Laws,
--                 Exec/Fallible and Exec/Trace have the lemmas on these, on loops that return at the
--                 first error, and on runs that keep a record of what they wrote. Exec/Keeps and
--                 Kube/Keeps say what a call keeps.
--   Kube          what is used of Kubernetes: object names, and its API client as a parameter.
--   Opsgenie      the requests and answers of the Opsgenie SDK, and its clients as parameters.
--   Api           api/v1beta1/opsgenie*_types.go, a module for each kind of resource.
--   Team          internal/controller/opsgenieteam_controller.go. Members: mapTeamMembers,
--                 isMembersUpdateRequired, isUpdateRequired. Reconcile: updateTeam,
--                 updateTeamMembers, createTeam, Reconcile. Comparison is about the first of these;
--                 Lawful, Steps, Updates and Convergence about repeated reconciliations, Memory is a
--                 world for them; View is an abstract view of a team, Refinement relates the
--                 reconciler to it; Trace is about writes, Keeps about invariants of a run.
--   Service       internal/controller/opsgenieservice_controller.go. Tags: equalStringSlices,
--                 isUpdateRequired. Reconcile: resolveTeamID, Reconcile. Comparison,
--                 Lawful, Settled, Convergence, Memory and Trace are as for Team.
--   IncidentRule  internal/controller/opsgenieincidentrule_controller.go. Requests: the map*
--                 functions; RoundTrip reads them back. Reconcile: resolveServiceID, Reconcile.
--                 Lawful, Once and Memory are about repeated reconciliations, Trace about writes.
--   Schedule      internal/controller/opsgenieschedule_controller.go. Days: mapDayIntToString,
--                 convertTimeRestrictions. Participants: convertParticipants. Rotations:
--                 convertRotations. Compare: areRotationsSame, isUpdateRequired. Reconcile:
--                 createSchedule, updateSchedule, Reconcile. DayLaws, ParticipantLaws, RotationLaws
--                 and CompareLaws are about these, Bounds about the numbers sent; Trace about
--                 writes, Panics about panics; Lawful, Settled, Steps, Convergence and Memory
--                 are as for Service, Lawful with the rotations that Opsgenie answers.
--   Escalation    internal/controller/opsgenieescalation_controller.go. Compare:
--                 compareEscalationRules, isUpdateRequired. Rules: resolveTeamID,
--                 resolveRecipientID, mapEscalationRules. Reconcile: updateEscalation,
--                 createEscalation, Reconcile. CompareLaws and RulesLaws are about the first two;
--                 Trace about writes and events. Lawful, Settled, Steps, Convergence and Memory are
--                 as for Service, Lawful with the rules that Opsgenie answers.
--   Startup       cmd/main.go, and SetupWithManager of the controllers (Setup). Program: exits. Slices:
--                 Go's slices, which may share an array. Tls: tlsOpts, webhookTLSOpts and the TLSOpts
--                 of the metrics server. Manager: what is used of controller-runtime. Main: the flags,
--                 the clients, the options, the wiring of the reconcilers, and main. Recorded, Follows
--                 and Order are about the order of the steps, TlsLaws about the options.
--   System        the controllers as main wires them. Steps: reconciliations in any order, with
--                 changes by others in between. Identified: an invariant of these. Progress and
--                 Requeued: reconciliations that succeed. Chain: a service after its team, an incident
--                 rule after its service. Cluster, Refusing, Pair and ServicePair are worlds for the tests.
--   DeepCopy      api/v1beta1/zz_generated.deepcopy.go, with the structs of api/v1beta1 as they lie in
--                 memory (Types), which is a list of arrays and maps; Objects, Arrays, PartArrays and
--                 KindArrays say of what types. Memory has the copies of slices, pointers and maps
--                 that the methods repeat; Methods has DeepCopyInto, DeepCopy
--                 and DeepCopyObject of each type, the last in Methods/Runtime. Equal says what a deep
--                 copy is; Laws, Copies, Loop, Elements, Flat, Maps, Fields and Deep lead to Isolation,
--                 which is about DeepCopyObject. Values and Views are what a reader sees of a
--                 resource in memory, as a record of Api; ViewLaws and Refinement relate the copies to
--                 these. Library and Documented are about what the methods call.
-- In each part that has theorems, Tests runs the definitions and applies the theorems to concrete
-- data, some of it in a Fixture. Keeps in each controller's part shows which invariants of the
-- world a reconciliation keeps.
--
-- A resource is a record with the fields that the code reads or writes. A call of the Kubernetes API,
-- of Opsgenie, of the clock or of the event recorder is a field of the controller's record, a
-- function from an unknown world to an answer and the next world, so a theorem holds for every
-- behaviour of theirs that its hypotheses allow. `time.Parse` is a field too, since Go's library is
-- not part of the repository. The SDK's Get answers a nil pointer with an error, as its client does.
--
-- In DeepCopy, a slice is an array's address with a start and a length, a pointer a place in an
-- array, a map an address. DeepCopyInto takes the value of `*in` and gives that of `*out`. An array
-- is the elements that were written so far; `make` makes it empty, since each method writes all
-- elements in order. The capacity of a slice is left out, since no method reads it. DeepCopyInto of
-- metav1.ObjectMeta, metav1.ListMeta and metav1.Time are parameters, with the types of the first
-- two, and so is the order in which `range` visits a map.
--
-- Loops over slices are structural recursion, so there is no fuel and every run ends. An int is an
-- unbounded integer, which is only compared, printed, and cut to 32 bits by uint32. A map is an
-- association list. Strings are compared by content.
--
-- `append` reuses an array if it has room; how much room a new array has is the parameter `room` of
-- `Startup.Main.Process`, which is 0 for an element of a machine word in Go's runtime. The manager's
-- Start is one call; which reconciliations it runs, and when, is the relation of `System.Steps`.
--
-- Not modelled: log lines; the parsing of flags; controller-runtime's queue, and what GenerationChanged
-- events are; the scheme registration, which only calls controller-runtime; the manifests
-- and the end-to-end tests.
pub mod Prelude
pub mod DeepCopy
pub mod Exec
pub mod Kube
pub mod Opsgenie
pub mod Api
pub mod Team
pub mod Service
pub mod IncidentRule
pub mod Schedule
pub mod Escalation
pub mod Startup
pub mod System
