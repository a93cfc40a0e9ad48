-- ===== src/Lib.antt =====
-- Test result scripts of the pipeline.
--
-- The scripts under pipeline/ work on the results of test runs. They have these parts here:
-- - pipeline/handleresult.py reads a JUnit file and writes others: it removes the monitor case
--   (`removeMonitor`), prints a summary by case id (`pirntResult`), gives each case id a test case of
--   its own (`generateRP`) and writes one file for each subteam (`splitRP`).
-- - pipeline/fastfixmonitor.py asks Bugzilla for the bugs of a fast fix, decides for each bug which
--   reminder is due, notes on the bug's whiteboard that it was sent, and posts one message to Slack.
-- - pipeline/reportportal.py looks up, changes, merges and deletes the launches of a test run in
--   Report Portal, decides which launches a build number and scenarios match, and prints the scenarios
--   of the next run. It imports a result file as a new launch, or, if there is a launch of the subteam
--   already, opens that again and writes the cases of the file in the place of its items. It keeps one
--   launch for each profile in a directory.
-- - pipeline/unifycirp.py imports a result file of another system.
-- - pipeline/auto_result_tool/collect_result_to_slack.py collects the results of launches by test run
--   and subteam and posts one message for each test run.
-- - pipeline/auto_result_tool/collect_result_to_googlesheet.py writes the failed cases of the runs of a
--   job to a sheet, run after run, and keeps the number of the last run in a file.
-- - hack/rule.py checks the titles that commits add.
-- - pipeline/updateresultrp.py sets the failed items of launches that fit a filter to "passed".
-- - pipeline/getfailcaseid.py prints the ids of the failed cases of one launch.
-- - pipeline/handleattribution.py and pipeline/handleconfig.py look a value up in a YAML document.
-- The scripts for JUnit files, titles and YAML documents work on a value; the jobs of the pipeline hand
-- their results to the others. The others share no state: each is a sequence of requests to a service.
--
-- Shared modules:
-- - Common: names of the libraries, Boolean tests on native numbers, lists, integers, options.
-- - Text: Python's `str` as a list of code points with the methods that the scripts call, and
--   Text/Regex the regular expressions that they use. `\d` and `\w` are those of ASCII.
-- - Dict: a Python dictionary as an association list in the order of insertion.
-- - Datetime: the times of `strptime` and `strftime` in the formats of the scripts, in microseconds.
-- - Junit: a JUnit file with one `testsuite` at the root and its `testcase` children.
-- - Session: code that sends requests, reads the clock and may raise. A run is a function from the
--   events before it to an outcome and the events after it. The service and the clock are a parameter,
--   whose answers may depend on all that was sent before, so a theorem holds for every service.
--   Session/Trace has the predicate that an action only adds certain events, with a rule for each
--   way of building an action; Session/Steps reads a run backwards from its result; Session/Total has
--   the actions that return whatever happened before; Session/Runs has the predicate that the events of
--   an action have a form together, for the order of events.
--
-- Correspondence. A method `someName` of a script is the function `some_name` here; a loop of a method
-- or a chain of its conditions is a function of its own, named for what it computes.
-- - HandleResult/Names: `getNames`, `getAuthorName`; HandleResult/Monitor: `removeMonitor`;
--   HandleResult/Summary: `pirntResult`; HandleResult/Generate: `generateRP`;
--   HandleResult/Split: `splitRP`. A raised `IndexError` or `ValueError` is `none`. HandleResult/Files:
--   how the last two open and write a file, as a list of events; whether a path can be opened for
--   writing is a parameter.
-- - FastFix: the types and the tests on a bug; FastFix/Notes: the notes on a whiteboard and the half
--   hours between times; FastFix/Requests: the methods that send one request or two;
--   FastFix/Check: `checkBug` and what it calls; FastFix/Slack: `notifyQaInSlack` and `handleBugs`.
-- - ReportPortal: the types; ReportPortal/Scenarios: `parseScenarios` and
--   `getNonSubTeamPerScenarios`; ReportPortal/Matching: the body of `checkLaunchsByNameScenario`;
--   ReportPortal/Launches: the methods on launches; ReportPortal/BuildNum: `addMoreBuildNumToLaunch`;
--   ReportPortal/FailCases: `getFailCaseID`; ReportPortal/Items: `deleteChild`, `getChild` and the
--   methods from `replaceChild` to `finishLaunch`; ReportPortal/Rerun: `rerunResult`, cut at the
--   loops, the `try` and the `finally`; ReportPortal/Import and Values: `logResult`, `importResult`,
--   `getProfileAttr` and `getAttrOption`; ReportPortal/Profiles: `putProfileLaunch` and what it calls.
--   The parsers of XML and YAML, the files, `int(float(text))`, `urllib.parse.quote`, the directory of
--   the profiles and the order of `list(set(...))` are parameters.
-- - UnifyCi: pipeline/unifycirp.py, with the types of ReportPortal.
-- - SlackReport: the types and `checkSubteam`; SlackReport/Launches: `getLaunchIdWithLaunchName`, which
--   also returns what it has collected before an exception; SlackReport/Collect: `getFailCaseID` and
--   `collectResult`; SlackReport/Message: `notifyToSlack` and the methods that report. The statistics of
--   a launch have the total of the executions in every answer, as the service documents them.
-- - UpdateResult/Filters: `makeLaunchFilterUrl` and `makeItemFilterUrl`; UpdateResult/Pages: the
--   others.
-- - CaseIds: both methods of pipeline/getfailcaseid.py, with the types of ReportPortal.
-- - SheetReport: `which_sheet` and the cells of a case; SheetReport/Write: `write_google_sheet` and
--   `ginkgo_google_report`; SheetReport/Rounds: the main part. The engine of `re` is a parameter that gets
--   the patterns of the source, and so are bs4, the parser of XML and the local date.
-- - Rule: hack/rule.py, with the engine of `re` as a parameter.
-- - Settings: `get` of `AttributionParse` and `ConfigParse`, whose bodies are the same.
-- The other modules of each part have the theorems, and Tests runs them on small inputs.
--
-- Bounds and fuel: `show` writes a number in at most as many digits as its successor, which is more
-- than its decimal digits. Times of launches and items are in milliseconds since 1970 and before the
-- year 10000; the loop for the year of such a time has one step more than the time has days, which are more than
-- its years, and the one for the month twelve. All else
-- recurs on the structure of its input; the loop over pages recurs on the number of pages that the first
-- answer announces.
--
-- Not modelled: XML, YAML and JSON as text, the command lines, the API keys, headers and timeouts, which
-- are the same in every request, and what is only printed. The command
-- line of hack/pr.py, and the Go and TypeScript tests, which run against a cluster.
pub mod Common
pub mod Text
pub mod Dict
pub mod Junit
pub mod Session
pub mod Datetime
pub mod HandleResult
pub mod FastFix
pub mod ReportPortal
pub mod UpdateResult
pub mod CaseIds
pub mod UnifyCi
pub mod SlackReport
pub mod SheetReport
pub mod Rule
pub mod Settings
