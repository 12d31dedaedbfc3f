-- ===== src/Lib.antt =====
-- A verification library for the services of Skolara, a school management system: the parts of
-- `apps/api/src` in which records of money, of stock, of beds, of lessons, of marks and of
-- sessions have to agree with each other, the guards in front of them, and the queue of registers
-- that the mobile application keeps (`apps/mobile/lib`). Each service is a class whose methods
-- read and write PostgreSQL through Prisma and throw one of Nest's exceptions. The services share
-- the database and call no other service's methods, except for notifications and documents.
--
-- How the code is modelled
--   Store       The database (`apps/api/src/prisma`). Prisma Client is not in the repository: the record
--               `Prisma` of Store/Client holds its queries as functions on the rows of a table, with
--               what their documentation says of them as laws, and every definition takes it as a
--               parameter. `listed` (Store/Listed) is one that meets the laws, for the tests. A unique
--               index is a test on two rows; it is read off `apps/api/prisma/schema.prisma` and the
--               migrations. Store/Queries makes the queries steps of a handler; Store/Keys and
--               Store/Constraints are about keys and unique indexes under them; Store/Steps takes an
--               invariant through a handler, by one rule for each kind of query.
--   Prelude     Shared notation. `Action` (Prelude/Action) is a handler: it takes the state, and answers
--               or throws, with the state it leaves. A throw keeps what was written before it, and
--               `transaction` takes it back. The text of a message is that of the source, with the
--               interpolations not filled in.
--   Library     `apps/api/src/library/library.service.ts`: createBook, borrow (its transaction is `lend`),
--               returnBook (`return_book`).
--   Inventory   `apps/api/src/inventory/inventory.service.ts`: createItem, updateItem, removeItem, issue (its
--               transaction is `reserve`), returnAsset (its transaction is `take_back`).
--   Payments    `apps/api/src/payments/payments.service.ts`: assertCanSubmitFor, submitPayment, review (the
--               transaction of a verification is `verify`), claimForReview, renderReceipt,
--               nextReferenceId. The documents service is a parameter.
--   PaymentGateway  `apps/api/src/payment-gateway/payment-gateway.service.ts`: handleWebhook (its update is
--               `write_total`), on the ledger of Payments, with JavaScript's numbers as an interface.
--   Hostel      `apps/api/src/hostel/hostel.service.ts`: createRoom, updateRoom, removeRoom, allocate (its
--               loop is `try_beds`), claimBed, freeBeds, vacate.
--   BankStatement  `apps/api/src/bank-statement/bank-statement.service.ts`: splitCsvRow, isHeaderRow,
--               parseRow, import (`import_statement`), suggestedMatches, confirmMatch. `new Date(text)`
--               and `Number(text)` are parameters.
--   Absences    `apps/api/src/absences/absences.service.ts` (request, review, cancel) and
--               `apps/api/src/attendance/attendance.service.ts` (markAttendance).
--   Meetings    `apps/api/src/meetings/meetings.service.ts`: publish, book, cancelBooking, withdraw.
--   Leave       `apps/api/src/leave/leave.service.ts` (request, review, cancel, balanceFor as `used_days`)
--               and `apps/api/src/leave/working-days.ts` (workingDaysBetween, whose loop is `walk`).
--   Quizzes     `apps/api/src/quizzes/quizzes.service.ts`. Quizzes/Authoring: create, replaceQuestions,
--               publish, remove. Quizzes/Papers: the rows and what a student sees of them.
--               Quizzes/Attempts: startAttempt (with `resume_or_open` and `open_attempt`), saveAnswer,
--               submitAttempt (with `hand_in`), attemptPaper, attemptResult, grade (its transaction is
--               `record_marks`), syncGradebook, finalizeIfExpired. Quizzes/Attempts/Steps takes any
--               invariant through what students do, and Quizzes/Requests through the service.
--   Auth        `apps/api/src/auth/auth.service.ts`: login, refresh, logout, revokeAllSessionsForUser,
--               forgotPassword, resetPassword, issueTokens. `@nestjs/jwt`, bcrypt and SHA-256 are the
--               record `Security`, with what their documentation says as laws.
--   Timetable   `apps/api/src/timetable/timetable.service.ts`: createPeriod, deletePeriod, upsertEntry
--               (its upsert is `write_entry`), deleteEntry, findConflicts. Timetable/Grid is the
--               timetable as a class sees it: a lesson or none in each cell.
--   Support     `apps/api/src/support/support.service.ts`: create, findOne, addComment, update (as
--               `update_ticket`), assertVisible.
--   LiveClasses  `apps/api/src/live-classes/live-classes.service.ts`: create, update, remove,
--               findForStudent (what it tells of a session is `joinable_class`).
--   RoleTemplates  `apps/api/src/role-templates/role-templates.service.ts`: create, update (as
--               `update_template`), remove, assign (with `find_and_assign`, `assign_to`, `put_on` and
--               `put_on_own`), clearForUser, own (as `own_template`). RoleTemplates/Capabilities: the
--               names of capabilities in `packages/types/src/role-templates.ts`.
--   Guards      `apps/api/src/common/guards`: the canActivate of each guard (`permission_guard`, whose test
--               of a template is `judge`, `jwt_auth_guard`, `jwt_or_api_key_guard`, `feature_guard`, and
--               `has_role` for the guard of roles). `dispatch` runs them on a request in Nest's order,
--               the global one of `apps/api/src/app.module.ts` first. Guards/Requests: resourceOf.
--               Guards/Plans: `packages/types/src/pricing.ts`. `create_key` and `revoke_key` are
--               `apps/api/src/api-keys/api-keys.service.ts`. The tokens are those of Auth.
--   ExceptionFilter  `apps/api/src/common/filters/all-exceptions.filter.ts`: what a client is answered
--               where a handler throws.
--   AccessChecks  `apps/api/src/common/student-access.service.ts` (assertCanAccessStudent) and
--               `apps/api/src/common/class-access.service.ts` (assertCanTeachClass, classIdsForTeacher).
--   Lessons     `apps/api/src/lessons/lessons.service.ts`: addTopics, updateTopic, removeTopic, createPlan,
--               updatePlan, removePlan, and coverage (Lessons/Coverage).
--   Exams       `apps/api/src/exams/exams.service.ts`: create, rankList (its loops are `by_student` and
--               `give_ranks`).
--   CsvWriter   `apps/api/src/reports/csv.ts`: toCsv, escapeCell.
--   OfflineQueue  `apps/mobile/lib/offline-queue.ts`: readQueue, writeQueue, queuedCount, enqueueAttendance,
--               flushAttendanceQueue, whose steps are those of a machine in OfflineQueue/Interleaving.
--   Inventory/Requests, Hostel/Requests, Absences/Requests, Quizzes/Requests, Timetable/Weeks,
--   Support/Stamps, RoleTemplates/Fitting and Lessons/Pinned put the operations of a service
--   together: a request is a value, and `serve` is what it leaves.
--   A module Rows under a service (Auth, Payments, Absences, Inventory, Lessons) has its rows and
--   inputs, and the writes of their columns.
--   The state of a service is a record of the tables that it reads and writes. The row and input types
--   are those of `packages/types/src`. A handler is named after its method, in snake case, and an input
--   that the method makes itself (a new id, the time) is an argument.
--
-- Concurrency
--   A transaction and a single statement are atomic. What other requests do between two of them is
--   covered where a transaction takes the row that was read before it as an argument (`verify`,
--   `take_back`, `write_total`), where `try_beds` takes what others do as a function on the state,
--   where Guards/Revocation puts any requests after a revocation, and where registers are parked
--   between the steps of a flush.
--
-- Bounds
--   The retries of an allocation are as many as the room has beds, as in the loop of the source. The
--   loop over the days of a leave has as much fuel as the range has days, which is enough since the
--   cursor moves on by a day each time. Every other loop is over a list.
--
-- Not modelled
--   Ids, dates and amounts are natural numbers: an id is only compared, a date is its time stamp
--   and an amount is in paisa. Input validation (the zod schemas), the throttler, the controllers
--   but for their guards, notifications, listings, summaries and the rest of the clients
--   (`apps/web`, `apps/mobile`) are left out. JavaScript's numbers are parameters where they are
--   added up and compared (PaymentGateway, Exams) or rounded (Lessons). Failures of the database
--   are left out, also those of the queries behind a notification.
pub mod Prelude
pub mod Store
pub mod Library
pub mod Inventory
pub mod Payments
pub mod Hostel
pub mod BankStatement
pub mod Absences
pub mod AccessChecks
pub mod Meetings
pub mod Leave
pub mod Auth
pub mod Quizzes
pub mod CsvWriter
pub mod ExceptionFilter
pub mod Exams
pub mod Guards
pub mod RoleTemplates
pub mod Lessons
pub mod LiveClasses
pub mod OfflineQueue
pub mod PaymentGateway
pub mod Support
pub mod Timetable
