-- ===== src/Lib.antt =====
-- A verification library of Hardhat Ignition, the deployment system of this repository: a module function
-- describes contracts and hooks, the module resolver orders them into a module state, and the executor puts
-- the elements of that state into batches and sends their transactions. Paths below are from the
-- repository's root; `core` stands for packages/ignition-core/src.
--
-- The parts and their files:
-- - Types: the data of core/interfaces/hardhat-ignition.ts, core/services/types/module.ts and
--   core/services/types/artifacts, and the errors. Objects that are shared by reference are named.
-- - Builder: ModuleBuilder, ContractBinding and GroupedDependencies of
--   core/interfaces/hardhat-ignition.ts. `build` in Builder/Calls runs the calls of a module function. Builder/Compile is
--   handleModule of the same file. Its output is the input of the resolver.
-- - Resolver: core/services/modules/module-resolver.ts, from resolveSingleEvent to _addEvent, and the part
--   of resolve that orders the elements.
-- - Reconcile: the second part of resolve, which compares the ordered elements with the module's state file, and
--   the invalidation of what depends on a changed contract. Its `resolve` is the whole function, over Resolver.
-- - Compare: isSameBytecode, arrayEquals and checkIfSameInputs of core/services/utils/util.ts, and checkArgs and
--   checkIfDiff of the module resolver. Reconcile uses the first.
-- - Repo: core/services/modules/states/repo/state-repo.ts over states/module/memory.ts: the stored states, which
--   are copies through JSON (copyValue of core/services/utils/util.ts).
-- - Handler: core/services/modules/events/handler.ts and _executeEvent of the executor. Its World holds a Repo and
--   the live module state; hooks are functions on it.
-- - Execution: execute, _executeSync, _executeSingleBinding, _sendTransaction and _sendTransactionAndWait of
--   core/services/ethereum/transactions/executor.ts, over Handler, Repo and Transactions. Execution/Failure has
--   executeModuleEvents and the part of deploy in core/index.ts that runs it when the execution throws. The
--   prompts are those of core/services/utils/logging/streamlined-logger.ts; the other loggers never refuse.
-- - Planning: _executeParallel and _handleElement of core/services/ethereum/transactions/executor.ts, up to
--   the execution of the batches.
-- - Batcher: core/services/modules/events/batcher.ts and _handleEvent of the executor, which Planning calls
--   for each event.
-- - Transactions: core/services/ethereum/transactions/manager.ts and generator.ts.
-- - Mutex: core/services/utils/mutex/simple-mutex.ts, as steps of its requests.
-- - Checker: core/services/types/checker.ts and core/services/modules/validator/module-validator.ts, which
--   handleModule calls.
-- - State: core/services/modules/states/state-resolver.ts.
-- - Instance: ContractInstance of core/interfaces/hardhat-ignition.ts and
--   core/services/ethereum/transactions/event-executor.ts: a call of a contract's function within a hook.
-- - Effects: calls that read and write a state and may throw, with their do notation.
-- - Prelude: lists with native lengths, dictionaries in the order of insertion, decided equality of names.
-- - Samples: small bindings and events that the tests of several modules use.
--
-- Recursion: the resolver and _handleElement call themselves along the arguments of contracts. Their models
-- take the depth of calls that the engine allows, and past it the call throws, as the engine does
-- (`stack_overflow`), and so does the invalidation in Reconcile. fetchBackoffGasPrice recurs on its number of retries. Everything else is structural.
--
-- Numbers are natural numbers of any size: batches, nonces, gas prices and positions in bytecode are small
-- or BigNumber values in the program. A batch number is NaN where the program computes with `undefined`.
--
-- Outside the library, as arguments: the answers of the node, the compiler's artifacts, the validator
-- that handleModule is given, the parser of big numbers, the code units of an address, the encoder of constructor
-- arguments, signatures, the functions of hooks and of custom deployments, and the answers of the user.
--
-- Not modelled: the execution of parallel batches, the queue of event transactions with several entries, the other
-- proxies around the contracts and signers of ethers, the migration of states, the usage of modules, files, logging, the command line
-- and the terminal. Numbers that BigNumber.from refuses (fractions, and those beyond 2 ^ 53) are no values of the model.
pub mod Prelude
pub mod Types
pub mod Batcher
pub mod Planning
pub mod Samples
pub mod Resolver
pub mod Builder
pub mod Transactions
pub mod Instance
pub mod Mutex
pub mod Checker
pub mod State
pub mod Compare
pub mod Effects
pub mod Execution
pub mod Handler
pub mod Reconcile
pub mod Repo
