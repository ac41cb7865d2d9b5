-- ===== src/Lib.antt =====
-- cervo-rules: the guard that a policy consults before an action is allowed.
--
-- A program names an operation, and a policy decides. Package core holds what all parts share: the
-- structured errors, their redaction, the vocabulary of names, the contract of a named condition,
-- and the envelope of a decision. Package ontology holds a model of the caller's world, a snapshot
-- of that world, the checks of one against the other, and the guard that answers conditions by them.
-- A policy is written in YAML: internal/policygen validates it and writes Go source, of which
-- internal/fuzzpolicy is an instance, a factory and an engine that decides requests by deny rules and
-- routes, over facts of the request and conditions that a guard answers.
-- Package facts holds the data of a rule evaluation, limits the budget of a request, runtime and
-- observe the errors and the report of a policy, and httpadapter turns a request of a transport into
-- one of a policy.
--
-- Files, and the code that each models:
--   Prelude      shared names, tests, lists, and the stable sort that stands for sort.SliceStable;
--                sort.Slice is modelled by it too, where the items are strings, since equal strings
--                are the same
--   Text         strings.TrimSpace, strings.ToLower, the normal form of names, strconv.Itoa
--   Core/Codes, Core/Error, Core/Errors         core/errors.go
--   Core/Redaction                              core/redaction.go
--   Core/Types, Core/Conditions, Core/Vocabulary  the files of core of those names
--   Core/Decisions                              core/decision_options.go, decision_result.go,
--                                               engine.go, routing.go
--   Ontology/Names, Ontology/Snapshot           ontology/types.go
--   Ontology/Signature                          ontology/signature.go
--   Ontology/Groups, Ontology/Constraints       ontology/constraints.go
--   Ontology/Lifecycle                          ontology/lifecycle.go
--   Ontology/Model                              ontology/ontology.go, ontology/constraint.go
--   Ontology/Scope, Ontology/Guard              ontology/scope.go, ontology/conditions.go
--   Limits                                      limits/limits.go
--   Facts/Contract, Facts/Binding, Facts/Indexes, Facts/Diagnostics
--                                               facts/contract.go, facts/binding_profile.go,
--                                               facts/structured_errors.go
--   Runtime, Observe                            runtime/factory.go, runtime/errors.go,
--                                               observe/report.go
--   Httpadapter                                 httpadapter/classifier.go, httpadapter/redaction.go
--   Float                                       float64, a parameter of the next two
--   Fuzzpolicy                                  internal/fuzzpolicy/generated_policy.go and
--                                               internal/fuzzpolicy/vocab/generated.go: Facts and
--                                               Rules the facts and predicates, Engine the
--                                               decision, Factory the configuration and Build
--   Policygen                                   internal/policygen/facts.go and
--                                               internal/policygen/generator.go: Schema the
--                                               decoded YAML, Problem the errors, Kinds and Facts
--                                               the facts, Predicate, Routes, Conditions and
--                                               Validate the validation, Check
--                                               the reading of the files around it
--   Vocabgen                                    internal/vocabgen/generator.go
--   Tests        runs on small inputs
-- A type keeps the source's name and a function has it in snake_case (Lifecycle.CheckTransition is
-- Lifecycle/Check.check_transition); the other files below a module hold its lemmas.
--
-- State and effects. A Go map is a list of its entries, or of its keys. An error that the caller may
-- return is known by its message. A resolver of snapshots takes and gives back a world of any type,
-- and the request scope that a context carries is passed along with it, so that the number of calls
-- shows in the world. A custom constraint is a value of any type with the operations of the interface
-- Constraint, as an instance argument.
--
-- Parameters. float64 is a type with the operations that the code uses of it, with no law assumed. The
-- caller's evaluator of conditions reads and may change a world. What the YAML decoder gives is the
-- input of the validation. A predicate of a rule is a function of the request, the facts and the world:
-- the engine, which the source passes too, would hold itself.
--
-- Bounds. Text is ASCII: strings.ToLower and unicode.IsSpace are modelled on those characters alone.
-- The breadth-first loop of unreachableFrom has one round of fuel for the start and one for each
-- declared target, which is enough because each round takes one state off the queue and each state
-- is queued once. Itoa has as much fuel as the successor of its number.
--
-- Not modelled: MarshalJSON, which encoding/json does, the panics of a resolver inside sync.Once, and
-- concurrent use of one scope. Of policygen the rendering of Go source, and Generate, which calls it,
-- are not modelled; neither are the commands and the test harnesses, which handle flags and files.
-- Package regexp, the lookup of an HTTP header, the YAML decoder, io.ReadAll, format.Source and the
-- hash of a file are parameters. Go's int is an unbounded signed number where it is only stored and
-- compared. An index out of range in a binding frame is a panic, written as none.
pub mod Prelude
pub mod Text
pub mod Core
pub mod Ontology
pub mod Limits
pub mod Facts
pub mod Runtime
pub mod Observe
pub mod Httpadapter
pub mod Float
pub mod Fuzzpolicy
pub mod Policygen
pub mod Vocabgen
pub mod Tests
